-- ===== src/Server/Admin/Places.antt =====
-- Locations and channels of alerts: backend/internal/server/admin_locations.go, the channel form of
-- admin_notifications.go, and buildChannels, ActivateChannels and the routes of notifications.go.
pub mod Serves
pub mod Removed
use re_terminal_eink_signage.Base.{
  inl, inr, is_some, Bool, true, false, not, ◌&&◌, ◌||◌, ◌⊎◌, Option, none, some, List, [], ◌∷◌,
  ◌++◌, ◌>>=◌, ◌>>◌, if◌then◌else◌, any, keep_if, Text, text, text_eq, is_empty,
}
use re_terminal_eink_signage.Config.Types.{
  AlertConfig, Config, Location, PushSubscription, User, can_see_location, limited, location_by_id,
  location_of, room_by_device_id, user_by_username,
}
use re_terminal_eink_signage.Config.Checks.{ConfigError}
use re_terminal_eink_signage.Config.Edits.{
  with_alerts, with_default_location, with_location, without_location,
}
use re_terminal_eink_signage.Config.Validate.Channels.{
  channel_lark, channel_log, channel_slack, channel_web_push, effective_channels,
}
use re_terminal_eink_signage.Server.Devices.{room_or_zero}
use re_terminal_eink_signage.Server.Forms.{Form, form_get, form_all, trim_space}
use re_terminal_eink_signage.Server.Site.{
  World, Moment, Site, Channel, lark_app, slack_webhook, web_push, Reply, redirects, complains,
  says, commit,
}

-- `PushSubscriptions`: an account that is limited by now gets nothing of other locations.
abbrev pub withheld : Option User → Text → Bool
withheld none location = false
withheld (some u) location = limited u && not (can_see_location u location)

unfoldable pub push_subscriptions : Text → Config → List PushSubscription
push_subscriptions location c =
    keep_if
      (λ sub.
        not (withheld (user_by_username c sub.username) location)
        && (is_empty location || is_empty sub.location || text_eq sub.location location))
      c.push_subscriptions

-- `LarkRoute`, `LarkDelivery` and `deviceLocation`.
unfoldable pub lark_route : Text → Config → Text × Text
lark_route location c = elim (location_by_id c location) [
  | none ↦ ([], [])
  | some l ↦ (l.lark_user_email, l.lark_chat_id)
]

unfoldable pub lark_delivery : Text → Config → Text
lark_delivery location c = elim (location_by_id c location) [ none ↦ [] | some l ↦ l.delivery ]

unfoldable pub device_location : Text → Config → Text
device_location device_id c = location_of c (room_or_zero (room_by_device_id c device_id))

module _ (w : World) where
  -- The channel of a name, and the public key of Web Push; `none` if it cannot work. The log is no
  -- channel.
  unfoldable pub channel_of : AlertConfig → Text → Option (List Channel × Option Text)
  channel_of a ch =
      if text_eq ch channel_lark
      then some (lark_app a.lark_app.app_id a.lark_app.app_secret a.lark_app.base_url ∷ [], none)
      else (if text_eq ch channel_slack
          then some (slack_webhook a.webhook_url ∷ [], none)
          else (if text_eq ch channel_log
              then some ([], none)
              else (if text_eq ch channel_web_push
                  then (elim (w.parse_vapid_keys a.webpush.vapid_public_key
                      a.webpush.vapid_private_key) [
                        | none ↦ none
                        | some public ↦ some (web_push public a.webpush.subject ∷ [], some public)
                      ])
                  else none)))

  -- The loop of `buildChannels`: the channels in order, and the last public key.
  unfoldable pub build_channels : AlertConfig → List Text → Text → Option (List Channel × Text)
  unfolding channel_of
  build_channels a [] vapid = some ([], vapid)
  build_channels a (ch ∷ chs) vapid = do
    (built, key) ← channel_of a ch
    (rest, last) ← build_channels a chs (elim key [ none ↦ vapid | some k ↦ k ])
    some (built ++ rest, last)

  -- `ActivateChannels`.
  unfoldable pub activate_channels : Config → Site → Site
  activate_channels cfg s = elim (build_channels cfg.alerts (effective_channels cfg.alerts) []) [
    | none ↦ s
    | some (built, vapid) ↦ record s { vapid_public_key = vapid; notifier = built }
  ]

  -- The channels that are ticked, in the source's order, or the log alone.
  unfoldable pub ticked : Form → List Text
  ticked f =
      let on =
        keep_if (λ ch. any (λ v. text_eq v ch) (form_all (text "channel") f))
          (channel_lark ∷ channel_web_push ∷ channel_slack ∷ []) in
      elim on [ [] ↦ channel_log ∷ [] | c ∷ cs ↦ c ∷ cs ]

  unfoldable pub then_activate : Reply × Site → Reply × Site
  then_activate (redirects to, s) = (redirects to, activate_channels s.cfg s)
  then_activate (r, s) = (r, s)

  -- Whether the channels of an accepted edit can be built; a refused one is reported first.
  unfoldable pub works : ConfigError ⊎ Config → Bool
  works (inl e) = true
  works (inr next) = is_some (build_channels next.alerts (effective_channels next.alerts) [])

  unfoldable pub handle_admin_save_notifications : Moment → Form → Site → Reply × Site
  handle_admin_save_notifications m f s =
      let edited =
        with_alerts w.load_location w.url_parse (record s.cfg.alerts { channels = ticked f })
          s.cfg in
      if not (works edited)
      then (
        complains (text "/admin#notifications")
            (says (text "That channel's configuration doesn't work.")),
        s,
      )
      else then_activate (
          commit w m edited false (text "/admin#notifications") (text "/admin#notifications")
            (text "/admin?saved=notifications#notifications") s)

  -- `saveLocationsCfg`.
  abbrev pub save_locations : Moment → ConfigError ⊎ Config → Site → Reply × Site
  save_locations m edited s =
      commit w m edited true (text "/admin#locations") (text "/admin#locations")
        (text "/admin?saved=locations#locations") s

  unfoldable pub location_of_form : Form → Location
  location_of_form f = record {
    id = trim_space (form_get (text "id") f);
    name = trim_space (form_get (text "name") f);
    lark_user_email = trim_space (form_get (text "lark_user_email") f);
    lark_chat_id = trim_space (form_get (text "lark_chat_id") f);
    delivery = trim_space (form_get (text "delivery") f);
  }

  unfoldable pub handle_admin_save_location : Moment → Form → Site → Reply × Site
  handle_admin_save_location m f s =
      save_locations m (with_location w.load_location w.url_parse (location_of_form f) s.cfg) s

  unfoldable pub handle_admin_delete_location : Moment → Form → Site → Reply × Site
  handle_admin_delete_location m f s =
      save_locations m (without_location w.load_location w.url_parse (form_get (text "id") f) s.cfg)
        s

  unfoldable pub handle_admin_default_location : Moment → Form → Site → Reply × Site
  handle_admin_default_location m f s =
      save_locations m
        (with_default_location w.load_location w.url_parse (form_get (text "id") f) s.cfg) s
