-- ===== src/Server/Scope/Serves.antt =====
-- What the handlers of limited accounts and of subscriptions keep.
use re_terminal_eink_signage.Base.{
  ℕ, refl, ◌∙◌, ◌⊎◌, inl, inr, false, not, Option, none, some, Text, text, any, text_eq, is_empty,
  Option-cases, Bool-cases,
}
use re_terminal_eink_signage.Config.Types.{Config, location_by_id, location_of}
use re_terminal_eink_signage.Config.Checks.{ConfigError}
use re_terminal_eink_signage.Config.Edits.{push_subscriptions_for, without_push_subscription}
use re_terminal_eink_signage.Server.Devices.{new_device_auth}
use re_terminal_eink_signage.Server.Gate.{RoleUi}
use re_terminal_eink_signage.Server.Forms.{Form, form_get}
use re_terminal_eink_signage.Server.Site.{World, Moment, PersistError, Site, apply_config}
use re_terminal_eink_signage.Server.Site.Coherent.{Coherent, Fits, apply_config-Coherent}
use re_terminal_eink_signage.Server.Site.Saves.{Unchanged, Applies, Saves, apply_config-Applies}
use re_terminal_eink_signage.Server.Site.Serves.{Serves, Fits-along, alike-Coherent, commit_after}
use re_terminal_eink_signage.Server.Site.Fits.{
  with_push_subscription-Fits, with_room_wake_override-Fits,
}
use re_terminal_eink_signage.Server.Admin.Accounts.{session_username}
use re_terminal_eink_signage.Server.Admin.Accounts.Serves.{session_username-alike}
use re_terminal_eink_signage.Server.Scope.{
  SubscribeRequest, session_account, room_visible, override_of_form, no_content, may_subscribe,
  subscription_of, subscribed, handle_manager_save_wake, handle_push_subscribe,
  handle_push_unsubscribe, remove_push_subscription,
}

module _ (w : World) (m : Moment) where
  pub session_account-alike :
      (cookie : Option Text) (s : Site) → Unchanged s (session_account w m cookie s).1
  unfolding session_account
  session_account-alike none s = (refl, refl, refl, refl)
  session_account-alike (some token) s = (refl, refl, refl, refl)

  pub save_wake-Serves :
      (cookie : Option Text) (f : Form) (s : Site)
      → Coherent s
      → Serves w s (handle_manager_save_wake w m cookie f s)
  unfolding handle_manager_save_wake
  save_wake-Serves cookie f s c =
      let account = session_account w m cookie s in
      let same = session_account-alike cookie s in
      let c' = alike-Coherent s account.1 same c in
      elim (Bool-cases (not (room_visible w account.0 s.cfg (form_get (text "device_id") f)))) [
        | inl e ↦ rw (handle_manager_save_wake, e) (c', inl same)
        | inr e ↦ elim (Option-cases (override_of_form w f s.cfg)) [
          | inl g ↦ rw (handle_manager_save_wake, e, g) (c', inl same)
          | inr ((mode, flat), g) ↦
              rw (handle_manager_save_wake, e, g)
                (commit_after w m _ false _ _ _ s account.1 same
                  (with_room_wake_override-Fits w _ mode flat s.cfg) c)
        ]
      ]

  told_plainly :
      (s t : Site) (r : Option PersistError × Site)
      → Unchanged s t
      → Applies w m t r
      → Saves w s (no_content w r)
  unfolding no_content
  told_plainly s t (some e, u) (a, b, d, e') (a', b', d', e'') =
      inl (a' ∙ a, b' ∙ b, d' ∙ d, e'' ∙ e')
  told_plainly s t (none, u) same backed = inr (backed, refl)

  no_content-site : (r : Option PersistError × Site) → Coherent r.1 → Coherent (no_content w r).1
  unfolding no_content
  no_content-site (some e, t) c = c
  no_content-site (none, t) c = c

  no_content-Serves :
      (next : Config) (s t : Site)
      → Unchanged s t
      → Fits false s.cfg (inr next)
      → Coherent s
      → Serves w s (no_content w (apply_config w m next false t))
  no_content-Serves next s t same f c = (
    no_content-site _ (
        apply_config-Coherent w m next false t (Fits-along false s.cfg t.cfg (inr next) same.0 f)
          (alike-Coherent s t same c)),
    told_plainly s t _ same (apply_config-Applies w m next false t),
  )

  -- A subscription that goes is in none of the tables.
  without-Fits :
      (endpoint : Text) (s : Site)
      → Coherent s
      → Fits false s.cfg (inr (without_push_subscription endpoint s.cfg).0)
  unfolding without_push_subscription new_device_auth location_by_id location_of
  without-Fits endpoint s c = (record { at = c.well_formed.at }, inr (refl, refl, refl))

  looked-alike :
      (cookie : Option Text) (s : Site)
      → Unchanged s (session_account w m cookie (session_username w m cookie s).1).1
  looked-alike cookie s =
      let (a, b, d, e) = (session_username-alike w m cookie s).0 in
      let (a', b', d', e') = session_account-alike cookie (session_username w m cookie s).1 in
      (a' ∙ a, b' ∙ b, d' ∙ d, e' ∙ e)

  subscribed-Serves :
      (edited : ConfigError ⊎ Config) (s t : Site)
      → Unchanged s t
      → Fits false s.cfg edited
      → Coherent s
      → Serves w s (subscribed w m edited t)
  unfolding subscribed
  subscribed-Serves (inl e) s t same f c = (alike-Coherent s t same c, inl same)
  subscribed-Serves (inr next) s t same f c = no_content-Serves next s t same f c

  pub subscribe-Serves :
      (ui : RoleUi) (cookie : Option Text) (body : ℕ ⊎ SubscribeRequest) (s : Site)
      → Coherent s
      → Serves w s (handle_push_subscribe w m ui cookie body s)
  unfolding handle_push_subscribe
  subscribe-Serves ui cookie (inl status) s c = elim (Bool-cases (is_empty s.vapid_public_key)) [
    | inl e ↦ rw (handle_push_subscribe, e) (c, inl (refl, refl, refl, refl))
    | inr e ↦ rw (handle_push_subscribe, e) (c, inl (refl, refl, refl, refl))
  ]
  subscribe-Serves ui cookie (inr req) s c =
      let user = session_username w m cookie s in
      let account = session_account w m cookie user.1 in
      let same = looked-alike cookie s in
      elim (Bool-cases (is_empty s.vapid_public_key)) [
        | inl e ↦ rw (handle_push_subscribe, e) (c, inl (refl, refl, refl, refl))
        | inr e ↦ elim (Bool-cases (not (may_subscribe w account.0 req.location))) [
          | inl g ↦ rw (handle_push_subscribe, e, g) (alike-Coherent s account.1 same c, inl same)
          | inr g ↦
              rw (handle_push_subscribe, e, g)
                (subscribed-Serves _ s account.1 same
                  (with_push_subscription-Fits w (subscription_of w user.0 req) s.cfg) c)
        ]
      ]

  pub unsubscribe-Serves :
      (cookie : Option Text) (body : ℕ ⊎ SubscribeRequest) (s : Site)
      → Coherent s
      → Serves w s (handle_push_unsubscribe w m cookie body s)
  unfolding handle_push_unsubscribe
  unsubscribe-Serves cookie (inl status) s c = (c, inl (refl, refl, refl, refl))
  unsubscribe-Serves cookie (inr req) s c =
      let user = session_username w m cookie s in
      let same = (session_username-alike w m cookie s).0 in
      elim (Bool-cases (
        not
          (any (λ sub. text_eq sub.endpoint req.endpoint) (push_subscriptions_for user.0 s.cfg)))) [
            | inl e ↦ rw (handle_push_unsubscribe, e) (alike-Coherent s user.1 same c, inl same)
            | inr e ↦
                rw (handle_push_unsubscribe, e)
                  (no_content-Serves _ s user.1 same (without-Fits req.endpoint s c) c)
          ]

  pub remove_push_subscription-Coherent :
      (endpoint : Text) (s : Site) → Coherent s → Coherent (remove_push_subscription w m endpoint s)
  unfolding remove_push_subscription
  remove_push_subscription-Coherent endpoint s c =
      elim (Bool-cases (not (without_push_subscription endpoint s.cfg).1)) [
        | inl e ↦ rw (remove_push_subscription, e) c
        | inr e ↦
            rw (remove_push_subscription, e)
              (apply_config-Coherent w m _ false s (without-Fits endpoint s c) c)
      ]
