-- ===== src/Server/Writes/Kept.antt =====
-- What holds through every history of requests that change the configuration.
use re_terminal_eink_signage.Base.{
  ℕ, ◌≡◌, refl, ◌⊎◌, inl, inr, true, false, not, ◌||◌, Option, none, some, List, [], ◌∷◌, Text,
  text_eq, is_empty, Option-cases, Bool-cases,
}
use re_terminal_eink_signage.Config.Types.{Config, user_by_username}
use re_terminal_eink_signage.Config.Validate.{validate}
use re_terminal_eink_signage.Config.WellFormed.{validate-IsWellFormed}
use re_terminal_eink_signage.Auth.Sessions.{SessionFile}
use re_terminal_eink_signage.Config.Edits.{with_user}
use re_terminal_eink_signage.Config.Edits.Logins.{edited-cases, set_password}
use re_terminal_eink_signage.Server.Gate.{RoleUi}
use re_terminal_eink_signage.Server.Login.{door_session, live_anyway, handle_change_password_submit}
use re_terminal_eink_signage.Server.Site.{new_site, fresh_site, World, Moment, PersistError, Site}
use re_terminal_eink_signage.Server.Site.Coherent.{
  Coherent, Valid, refresh_derived-Coherent, apply_config-Coherent,
}
use re_terminal_eink_signage.Server.Site.Saves.{Unchanged, Backed, succeeds}
use re_terminal_eink_signage.Server.Site.Serves.{Serves, sessions-Coherent}
use re_terminal_eink_signage.Server.Site.Fits.{with_user-Fits}
use re_terminal_eink_signage.Server.Admin.Settings.Serves.{
  save_room-Serves, delete_room-Serves, save_wake_defaults-Serves, save_alerts-Serves,
  save_fleet_wifi-Serves, save_firmware-Serves,
}
use re_terminal_eink_signage.Server.Admin.Accounts.Serves.{
  save_user-Serves, delete_user-Serves, totp_enable-Serves, totp_disable-Serves,
  reset_password-Serves, reset_2fa-Serves,
}
use re_terminal_eink_signage.Server.Admin.Places.Serves.{
  save_notifications-Serves, save_location-Serves, delete_location-Serves, default_location-Serves,
}
use re_terminal_eink_signage.Server.Scope.Serves.{
  save_wake-Serves, subscribe-Serves, unsubscribe-Serves, remove_push_subscription-Coherent,
}
use re_terminal_eink_signage.Server.Reset.Serves.{forgot_password-Serves, reset_with_token-Serves}
use re_terminal_eink_signage.Server.Writes.{
  Write, saves_room, deletes_room, saves_wake_defaults, saves_alerts, saves_fleet_wifi,
  saves_firmware, saves_user, deletes_user, enables_totp, disables_totp, resets_password,
  resets_2fa, saves_notifications, saves_location, deletes_location, changes_default_location,
  saves_wake, subscribes, unsubscribes, forgets_password, resets_with_token, Event, writes,
  changes_password, loses_subscription, respond, step, run,
}

module _ (w : World) where
  live_anyway-Coherent :
      (next : Config) (r : Option PersistError × Site)
      → Valid next
      → Coherent r.1
      → Coherent (live_anyway next r)
  unfolding live_anyway
  live_anyway-Coherent next (none, s) ok c = c
  live_anyway-Coherent next (some e, s) ok c = refresh_derived-Coherent next _ refl ok

  change_password-Coherent :
      (m : Moment) (ui : RoleUi) (cookie : Option Text) (password confirm token : Text) (s : Site)
      → Coherent s
      → Coherent (handle_change_password_submit w m ui cookie password confirm token s).1
  unfolding handle_change_password_submit
  change_password-Coherent m ui cookie password confirm token s c =
      let found = door_session w.key ui cookie m.now m.written s.sessions in
      let c' = sessions-Coherent found.1 s c in
      elim (Option-cases found.0) [
        | inl e ↦ rw (handle_change_password_submit, e) c'
        | inr (sess, e) ↦ elim (Bool-cases (is_empty password || not (text_eq password confirm))) [
          | inl g ↦ rw (handle_change_password_submit, e, g) c'
          | inr g ↦ elim (Option-cases (user_by_username s.cfg sess.username)) [
            | inl h ↦ rw (handle_change_password_submit, e, g, h) c'
            | inr (u, h) ↦
                let fits = with_user-Fits w (set_password w.sha256 u password false) s.cfg in
                elim (edited-cases (
                  with_user w.load_location w.url_parse (set_password w.sha256 u password false)
                    s.cfg)) [
                      | inl (x, i) ↦ rw (handle_change_password_submit, e, g, h, i) c'
                      | inr (next, i) ↦
                          let fit = rw i at fits in
                          let live =
                            live_anyway-Coherent next _ fit.0
                              (apply_config-Coherent w m next true _ fit c') in
                          rw (handle_change_password_submit, e, g, h, i)
                            (sessions-Coherent _ _ live)
                    ]
          ]
        ]
      ]

  respond-Serves : (m : Moment) (o : Write) (s : Site) → Coherent s → Serves w s (respond w m o s)
  unfolding respond
  respond-Serves m (saves_room probe f) s c = save_room-Serves w m probe f s c
  respond-Serves m (deletes_room f) s c = delete_room-Serves w m f s c
  respond-Serves m (saves_wake_defaults f) s c = save_wake_defaults-Serves w m f s c
  respond-Serves m (saves_alerts f) s c = save_alerts-Serves w m f s c
  respond-Serves m (saves_fleet_wifi f) s c = save_fleet_wifi-Serves w m f s c
  respond-Serves m (saves_firmware f) s c = save_firmware-Serves w m f s c
  respond-Serves m (saves_user f) s c = save_user-Serves w m f s c
  respond-Serves m (deletes_user cookie f) s c = delete_user-Serves w m cookie f s c
  respond-Serves m (enables_totp ui cookie f) s c = totp_enable-Serves w m ui cookie f s c
  respond-Serves m (disables_totp cookie f) s c = totp_disable-Serves w m cookie f s c
  respond-Serves m (resets_password f) s c = reset_password-Serves w m f s c
  respond-Serves m (resets_2fa cookie f) s c = reset_2fa-Serves w m cookie f s c
  respond-Serves m (saves_notifications f) s c = save_notifications-Serves w m f s c
  respond-Serves m (saves_location f) s c = save_location-Serves w m f s c
  respond-Serves m (deletes_location f) s c = delete_location-Serves w m f s c
  respond-Serves m (changes_default_location f) s c = default_location-Serves w m f s c
  respond-Serves m (saves_wake cookie f) s c = save_wake-Serves w m cookie f s c
  respond-Serves m (subscribes ui cookie body) s c = subscribe-Serves w m ui cookie body s c
  respond-Serves m (unsubscribes cookie body) s c = unsubscribe-Serves w m cookie body s c
  respond-Serves m (forgets_password name addr) s c = forgot_password-Serves w m name addr s c
  respond-Serves m (resets_with_token token password) s c =
      reset_with_token-Serves w m token password s c

  -- To a coherent server: a request after which the live configuration, or one of the tables of
  -- logins, of the displays' tokens and of names, is not what it was, is answered by a success, and a
  -- durable backend then holds the text of the live configuration. (Sessions, links and the counts of
  -- mails are not meant, and the form of the password is no such request.)
  pub respond-Saves :
      (m : Moment) (o : Write) (s : Site)
      → Coherent s
      → Unchanged s (respond w m o s).1
        ⊎ (Backed w (respond w m o s).1 × (succeeds (respond w m o s).0 ≡ true))
  respond-Saves m o s c = (respond-Serves m o s c).1

  step-Coherent : (m : Moment) (e : Event) (s : Site) → Coherent s → Coherent (step w m e s)
  unfolding step
  step-Coherent m (writes o) s c = (respond-Serves m o s c).0
  step-Coherent m (changes_password ui cookie password confirm token) s c =
      change_password-Coherent m ui cookie password confirm token s c
  step-Coherent m (loses_subscription endpoint) s c =
      remove_push_subscription-Coherent w m endpoint s c

  run-Coherent : (es : List (Moment × Event)) (s : Site) → Coherent s → Coherent (run w es s)
  unfolding run
  run-Coherent [] s c = c
  run-Coherent ((m, e) ∷ es) s c = run-Coherent es (step w m e s) (step-Coherent m e s c)

  new_site-Coherent :
      (now : ℕ) (file : SessionFile) (saved : Option Text) (cfg : Config)
      → validate w.load_location w.url_parse cfg ≡ none
      → Coherent (new_site w now file saved cfg)
  unfolding fresh_site
  new_site-Coherent now file saved cfg ok =
      refresh_derived-Coherent cfg (fresh_site w now file saved cfg) refl
        (record { at = validate-IsWellFormed w.load_location w.url_parse cfg ok })

  -- A server that is made for a configuration that `Validate` accepts: through every history of
  -- requests that change the configuration, one after the other, whatever the backend does, the
  -- configuration that is live stays well-formed, and the tables that requests are checked against, of logins, of the
  -- displays' tokens and of names, are the ones that belong to it: also after the edits that do not
  -- build them again.
  pub served-Coherent :
      (now : ℕ) (file : SessionFile) (saved : Option Text) (cfg : Config)
      (es : List (Moment × Event))
      → validate w.load_location w.url_parse cfg ≡ none
      → Coherent (run w es (new_site w now file saved cfg))
  served-Coherent now file saved cfg es ok =
      run-Coherent es _ (new_site-Coherent now file saved cfg ok)
