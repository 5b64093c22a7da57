-- ===== src/Server/Admin/Places/Serves.antt =====
-- What the handlers of locations and channels keep.
use re_terminal_eink_signage.Base.{
  ◌≡◌, refl, inl, inr, true, false, not, [], Option-cases, Bool-cases,
}
use re_terminal_eink_signage.Config.Types.{Config}
use re_terminal_eink_signage.Config.Validate.Channels.{effective_channels}
use re_terminal_eink_signage.Config.Edits.{with_alerts}
use re_terminal_eink_signage.Server.Forms.{Form}
use re_terminal_eink_signage.Server.Site.{
  World, Moment, Site, Reply, redirects, complains, answers, asks_again,
}
use re_terminal_eink_signage.Server.Site.Coherent.{Coherent}
use re_terminal_eink_signage.Server.Site.Saves.{Unchanged}
use re_terminal_eink_signage.Server.Site.Serves.{Serves, then-Saves, alike-Coherent, commit-Serves}
use re_terminal_eink_signage.Server.Site.Fits.{
  with_alerts-Fits, with_location-Fits, with_default_location-Fits, without_location-Fits,
}
use re_terminal_eink_signage.Server.Admin.Places.{
  build_channels, activate_channels, ticked, works, then_activate, handle_admin_save_notifications,
  handle_admin_save_location, handle_admin_delete_location, handle_admin_default_location,
}

module _ (w : World) where
  -- The channels are no part of the configuration and its tables.
  activate_channels-alike :
      (cfg : Config) (t : Site)
      → Unchanged t (activate_channels w cfg t) × ((activate_channels w cfg t).saved ≡ t.saved)
  unfolding activate_channels
  activate_channels-alike cfg t =
      elim (Option-cases (build_channels w cfg.alerts (effective_channels cfg.alerts) [])) [
        | inl e ↦ rw (activate_channels, e) ((refl, refl, refl, refl), refl)
        | inr (b, e) ↦ rw (activate_channels, e) ((refl, refl, refl, refl), refl)
      ]

  then_activate-Serves :
      (s : Site) (r : Reply × Site) → Serves w s r → Serves w s (then_activate w r)
  unfolding then_activate
  then_activate-Serves s (redirects to, t) (c, saves) =
      let (same, kept) = activate_channels-alike t.cfg t in
      (
        alike-Coherent t (activate_channels w t.cfg t) same c,
        then-Saves w s t to (redirects to, activate_channels w t.cfg t) (same, kept, refl) saves,
      )
  then_activate-Serves s (complains at e, t) h = h
  then_activate-Serves s (answers n, t) h = h
  then_activate-Serves s (asks_again x, t) h = h

  module _ (m : Moment) (f : Form) (s : Site) (c : Coherent s) where
    pub save_notifications-Serves : Serves w s (handle_admin_save_notifications w m f s)
    unfolding handle_admin_save_notifications
    save_notifications-Serves =
        let alerts = record s.cfg.alerts { channels = ticked w f } in
        elim (Bool-cases (not (works w (with_alerts w.load_location w.url_parse alerts s.cfg)))) [
          | inl e ↦ rw (handle_admin_save_notifications, e) (c, inl (refl, refl, refl, refl))
          | inr e ↦
              rw (handle_admin_save_notifications, e)
                (then_activate-Serves s _
                  (commit-Serves w m _ false _ _ _ s (with_alerts-Fits w alerts s.cfg) c))
        ]

    pub save_location-Serves : Serves w s (handle_admin_save_location w m f s)
    unfolding handle_admin_save_location
    save_location-Serves = commit-Serves w m _ true _ _ _ s (with_location-Fits w _ s.cfg) c

    pub delete_location-Serves : Serves w s (handle_admin_delete_location w m f s)
    unfolding handle_admin_delete_location
    delete_location-Serves = commit-Serves w m _ true _ _ _ s (without_location-Fits w _ s.cfg) c

    pub default_location-Serves : Serves w s (handle_admin_default_location w m f s)
    unfolding handle_admin_default_location
    default_location-Serves =
        commit-Serves w m _ true _ _ _ s (with_default_location-Fits w _ s.cfg) c
