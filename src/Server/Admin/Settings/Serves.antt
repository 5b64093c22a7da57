-- ===== src/Server/Admin/Settings/Serves.antt =====
-- What the forms of admin.go for rooms, wake defaults, alerts, Wi-Fi and firmware keep.
use re_terminal_eink_signage.Base.{
  refl, ◌⊎◌, inl, inr, Bool, true, false, not, ◌&&◌, Option, Text, text_eq, is_empty, if◌then◌else◌,
  Option-cases,
}
use re_terminal_eink_signage.Config.Types.{Config}
use re_terminal_eink_signage.Config.Checks.{ConfigError}
use re_terminal_eink_signage.Server.Forms.{Form}
use re_terminal_eink_signage.Server.Site.{World, Moment, Site}
use re_terminal_eink_signage.Server.Site.Coherent.{Coherent, Valid, Fits}
use re_terminal_eink_signage.Server.Site.Serves.{Serves, commit-Serves}
use re_terminal_eink_signage.Server.Site.Fits.{
  with_room-Fits, without_room-Fits, with_wake-Fits, with_alerts-Fits, with_firmware-Fits,
  with_fleet_wifi_ssid-Fits,
}
use re_terminal_eink_signage.Server.Admin.Settings.{
  token_hash, room_of_form, probed, renamed_room, unless_refused, then_rename, existing_room,
  handle_admin_save_room, handle_admin_delete_room, handle_admin_save_wake_defaults,
  handle_admin_save_alerts, handle_admin_save_fleet_wifi, handle_admin_save_firmware,
}

module _ (w : World) where
  pub then_rename-Fits :
      (f : Config → Config) (c : Config) (edited : ConfigError ⊎ Config)
      → ((next : Config) → Valid next → Valid (f next))
      → Fits true c edited
      → Fits true c (then_rename w f edited)
  then_rename-Fits f c (inl e) keeps fits = tt
  then_rename-Fits f c (inr next) keeps fits = (keeps next fits.0, inl refl)

  pub unless_refused-Valid :
      (b : Bool) (c : Config) (edited : ConfigError ⊎ Config)
      → Valid c
      → Fits true c edited
      → Valid (if b then unless_refused w c edited else c)
  unless_refused-Valid false c edited ok fits = ok
  unless_refused-Valid true c (inl e) ok fits = ok
  unless_refused-Valid true c (inr next) ok fits = fits.0

  renamed_room-Valid :
      (original device_id : Text) (next : Config)
      → Valid next
      → Valid (renamed_room w original device_id next)
  unfolding renamed_room
  renamed_room-Valid original device_id next ok =
      unless_refused-Valid (not (is_empty original) && not (text_eq original device_id)) next _ ok
        (without_room-Fits w original next)

  pub save_room-Serves :
      (m : Moment) (probe : Option (Text → Option Text)) (f : Form) (s : Site)
      → Coherent s
      → Serves w s (handle_admin_save_room w m probe f s)
  unfolding handle_admin_save_room
  save_room-Serves m probe f s c =
      let existing = existing_room w f s.cfg in
      elim (Option-cases (token_hash w f existing)) [
        | inl e ↦ rw (handle_admin_save_room, e) (c, inl (refl, refl, refl, refl))
        | inr (hash, e) ↦
            elim (Option-cases (probed w probe existing (room_of_form w f existing hash))) [
              | inl g ↦
                  rw (handle_admin_save_room, e, g)
                    (commit-Serves w m _ true _ _ _ s
                      (then_rename-Fits _ s.cfg _ (renamed_room-Valid _ _)
                        (with_room-Fits w _ s.cfg))
                      c)
              | inr (x, g) ↦ rw (handle_admin_save_room, e, g) (c, inl (refl, refl, refl, refl))
            ]
      ]

  module _ (m : Moment) (f : Form) (s : Site) (c : Coherent s) where
    pub delete_room-Serves : Serves w s (handle_admin_delete_room w m f s)
    unfolding handle_admin_delete_room
    delete_room-Serves = commit-Serves w m _ true _ _ _ s (without_room-Fits w _ s.cfg) c

    pub save_wake_defaults-Serves : Serves w s (handle_admin_save_wake_defaults w m f s)
    unfolding handle_admin_save_wake_defaults
    save_wake_defaults-Serves = commit-Serves w m _ false _ _ _ s (with_wake-Fits w _ s.cfg) c

    pub save_alerts-Serves : Serves w s (handle_admin_save_alerts w m f s)
    unfolding handle_admin_save_alerts
    save_alerts-Serves = commit-Serves w m _ false _ _ _ s (with_alerts-Fits w _ s.cfg) c

    pub save_fleet_wifi-Serves : Serves w s (handle_admin_save_fleet_wifi w m f s)
    unfolding handle_admin_save_fleet_wifi
    save_fleet_wifi-Serves =
        commit-Serves w m _ false _ _ _ s (with_fleet_wifi_ssid-Fits w _ s.cfg) c

    pub save_firmware-Serves : Serves w s (handle_admin_save_firmware w m f s)
    unfolding handle_admin_save_firmware
    save_firmware-Serves = commit-Serves w m _ false _ _ _ s (with_firmware-Fits w _ s.cfg) c
