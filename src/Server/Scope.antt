-- ===== src/Server/Scope.antt =====
-- What a limited account may see and change: backend/internal/server/scope.go, the form of
-- manager.go, and the subscriptions of push.go.
pub mod Serves
pub mod Confined
use re_terminal_eink_signage.Base.{
  ℕ, Bool, false, not, ◌&&◌, ◌||◌, ◌⊎◌, inl, inr, Option, none, some, ◌++◌, ltb, if◌then◌else◌, any,
  Text, text, text_eq, is_empty,
}
use re_terminal_eink_signage.Config.Types.{
  Config, PushSubscription, User, can_see_location, can_see_room, limited, room_by_device_id,
  user_by_username,
}
use re_terminal_eink_signage.Config.Checks.{ConfigError}
use re_terminal_eink_signage.Config.Edits.{
  push_subscriptions_for, with_push_subscription, with_room_wake_override,
  without_push_subscription,
}
use re_terminal_eink_signage.Auth.{role_admin}
use re_terminal_eink_signage.Auth.Sessions.{check}
use re_terminal_eink_signage.Server.Gate.{RoleUi}
use re_terminal_eink_signage.Server.Forms.{Form, form_get, trim_space}
use re_terminal_eink_signage.Server.Admin.Accounts.{user_or_zero, session_username}
use re_terminal_eink_signage.Server.Site.{
  World, Moment, Site, PersistError, Reply, answers, redirects, apply_config, commit,
}

-- A subscription as the browser sends it.
pub record SubscribeRequest : Type 0 where
  pub endpoint : Text
  pub location : Text
  pub p256dh : Text
  pub auth : Text

module _ (w : World) where
  unfoldable pub session_account : Moment → Option Text → Site → Option User × Site
  session_account m none s = (none, s)
  session_account m (some token) s =
      let found = check w.key token m.now m.written s.sessions in
      (
        elim found.0 [
          | none ↦ none
          | some sess ↦
              (if text_eq sess.role role_admin
                then some
                    (record (user_or_zero none) { username = sess.username; role = sess.role })
                else user_by_username s.cfg sess.username)
        ],
        record s { sessions = found.1 },
      )

  -- `roomVisible`, for the account that `session_account` gave.
  unfoldable pub room_visible : Option User → Config → Text → Bool
  room_visible none cfg device_id = false
  room_visible (some u) cfg device_id = elim (room_by_device_id cfg device_id) [
    | none ↦ not (limited u)
    | some room ↦ can_see_room cfg u room
  ]

  -- The override of the form: `none` is an interval that is refused.
  unfoldable pub override_of_form : Form → Config → Option (Option Text × Option ℕ)
  override_of_form f cfg =
      let mode = form_get (text "wake_mode") f in
      let raw = trim_space (form_get (text "interval_seconds") f) in
      let (secs, right) = w.parse_uint32 raw in
      if not (text_eq mode (text "flat"))
      then some (some mode, none)
      else (if is_empty raw || text_eq raw (text "0")
          then (if is_empty cfg.wake.mode || text_eq cfg.wake.mode (text "flat")
              then some (none, none)
              else some (some mode, none))
          else (if not right || ltb secs 60 then none else some (some mode, some secs)))

  unfoldable pub handle_manager_save_wake : Moment → Option Text → Form → Site → Reply × Site
  handle_manager_save_wake m cookie f s =
      let device_id = form_get (text "device_id") f in
      let account = session_account m cookie s in
      if not (room_visible account.0 s.cfg device_id)
      then (answers 403, account.1)
      else (elim (override_of_form f s.cfg) [
        | none ↦ (redirects (text "/manager?error=invalid_interval"), account.1)
        | some (mode, flat_seconds) ↦
            commit w m
              (with_room_wake_override w.load_location w.url_parse device_id mode flat_seconds
                s.cfg)
              false (text "/manager?error=rejected") (text "/manager?error=persist")
              (text "/manager?saved=" ++ device_id) account.1
      ])

  -- The answer to a change that has no page.
  unfoldable pub no_content : Option PersistError × Site → Reply × Site
  no_content (some e, s) = (answers 500, s)
  no_content (none, s) = (answers 204, s)

  -- A limited account has to choose one of its locations, so not every location.
  unfoldable pub may_subscribe : Option User → Text → Bool
  may_subscribe none location = false
  may_subscribe (some acct) location = not (limited acct && not (can_see_location acct location))

  abbrev pub subscription_of : Text → SubscribeRequest → PushSubscription
  subscription_of username req = record {
    username = username;
    location = req.location;
    endpoint = req.endpoint;
    p256dh = req.p256dh;
    auth = req.auth;
  }

  unfoldable pub subscribed : Moment → ConfigError ⊎ Config → Site → Reply × Site
  subscribed m (inl e) s = (answers 400, s)
  subscribed m (inr next) s = no_content (apply_config w m next false s)

  -- The body is decoded by `decodeSubscribe`, or the status that it answers.
  unfoldable pub handle_push_subscribe :
      Moment → RoleUi → Option Text → ℕ ⊎ SubscribeRequest → Site → Reply × Site
  handle_push_subscribe m ui cookie body s =
      if is_empty s.vapid_public_key then (answers 409, s) else (elim body [
        | inl status ↦ (answers status, s)
        | inr req ↦
            let user = session_username w m cookie s in
            let account = session_account m cookie user.1 in
            if not (may_subscribe account.0 req.location)
            then (answers 403, account.1)
            else subscribed m
                (with_push_subscription w.load_location w.url_parse (subscription_of user.0 req)
                  s.cfg)
                account.1
      ])

  unfoldable pub handle_push_unsubscribe :
      Moment → Option Text → ℕ ⊎ SubscribeRequest → Site → Reply × Site
  handle_push_unsubscribe m cookie body s = elim body [
    | inl status ↦ (answers status, s)
    | inr req ↦
        let user = session_username w m cookie s in
        if not
          (any (λ sub. text_eq sub.endpoint req.endpoint) (push_subscriptions_for user.0 s.cfg))
        then (answers 204, user.1)
        else no_content
            (apply_config w m (without_push_subscription req.endpoint s.cfg).0 false user.1)
  ]

  -- `RemovePushSubscription`: the push service said that it is gone.
  unfoldable pub remove_push_subscription : Moment → Text → Site → Site
  remove_push_subscription m endpoint s =
      let (next, removed) = without_push_subscription endpoint s.cfg in
      if not removed then s else (apply_config w m next false s).1
