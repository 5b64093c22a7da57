-- ===== src/Server/Writes.antt =====
-- The requests that change the configuration, one constructor for each route of
-- backend/internal/server/server.go that does, and histories of them. A request is answered as one
-- step, from the configuration that its handler loads to the answer: what requests that overlap can
-- do is Site/Overlap. requireRole, which stands before most of the handlers, is Server/Gate; here
-- every request gets through to its handler.
pub mod Kept
use re_terminal_eink_signage.Base.{ℕ, ◌⊎◌, Option, List, [], ◌∷◌, Text}
use re_terminal_eink_signage.Server.Gate.{RoleUi}
use re_terminal_eink_signage.Server.Forms.{Form}
use re_terminal_eink_signage.Server.Site.{World, Moment, Site, Reply}
use re_terminal_eink_signage.Server.Admin.Settings.{
  handle_admin_save_room, handle_admin_delete_room, handle_admin_save_wake_defaults,
  handle_admin_save_alerts, handle_admin_save_fleet_wifi, handle_admin_save_firmware,
}
use re_terminal_eink_signage.Server.Admin.Accounts.{
  handle_admin_save_user, handle_admin_delete_user, handle_totp_enable_submit,
  handle_totp_disable_submit,
}
use re_terminal_eink_signage.Server.Admin.Recovery.{
  handle_admin_reset_password, handle_admin_reset_2fa,
}
use re_terminal_eink_signage.Server.Admin.Places.{
  handle_admin_save_notifications, handle_admin_save_location, handle_admin_delete_location,
  handle_admin_default_location,
}
use re_terminal_eink_signage.Server.Scope.{
  SubscribeRequest, handle_manager_save_wake, handle_push_subscribe, handle_push_unsubscribe,
  remove_push_subscription,
}
use re_terminal_eink_signage.Server.Reset.{
  handle_forgot_password_submit, handle_reset_with_token_submit,
}
use re_terminal_eink_signage.Server.Login.{handle_change_password_submit}

-- A room's form comes with the calendar probe, if the server has one; the other requests with the
-- door's cookie where the handler reads it.
pub data Write : Type 0 where
  saves_room : Option (Text → Option Text) → Form → Write
  deletes_room : Form → Write
  saves_wake_defaults : Form → Write
  saves_alerts : Form → Write
  saves_fleet_wifi : Form → Write
  saves_firmware : Form → Write
  saves_user : Form → Write
  deletes_user : Option Text → Form → Write
  enables_totp : RoleUi → Option Text → Form → Write
  disables_totp : Option Text → Form → Write
  resets_password : Form → Write
  resets_2fa : Option Text → Form → Write
  saves_notifications : Form → Write
  saves_location : Form → Write
  deletes_location : Form → Write
  changes_default_location : Form → Write
  saves_wake : Option Text → Form → Write
  subscribes : RoleUi → Option Text → ℕ ⊎ SubscribeRequest → Write
  unsubscribes : Option Text → ℕ ⊎ SubscribeRequest → Write
  forgets_password : Text → Text → Write
  resets_with_token : Text → Text → Write

-- What else changes the configuration: the form of the password, and the push service that says that
-- a subscription is gone.
pub data Event : Type 0 where
  writes : Write → Event
  changes_password : RoleUi → Option Text → Text → Text → Text → Event
  loses_subscription : Text → Event

module _ (w : World) where
  unfoldable pub respond : Moment → Write → Site → Reply × Site
  respond m (saves_room probe f) = handle_admin_save_room w m probe f
  respond m (deletes_room f) = handle_admin_delete_room w m f
  respond m (saves_wake_defaults f) = handle_admin_save_wake_defaults w m f
  respond m (saves_alerts f) = handle_admin_save_alerts w m f
  respond m (saves_fleet_wifi f) = handle_admin_save_fleet_wifi w m f
  respond m (saves_firmware f) = handle_admin_save_firmware w m f
  respond m (saves_user f) = handle_admin_save_user w m f
  respond m (deletes_user cookie f) = handle_admin_delete_user w m cookie f
  respond m (enables_totp ui cookie f) = handle_totp_enable_submit w m ui cookie f
  respond m (disables_totp cookie f) = handle_totp_disable_submit w m cookie f
  respond m (resets_password f) = handle_admin_reset_password w m f
  respond m (resets_2fa cookie f) = handle_admin_reset_2fa w m cookie f
  respond m (saves_notifications f) = handle_admin_save_notifications w m f
  respond m (saves_location f) = handle_admin_save_location w m f
  respond m (deletes_location f) = handle_admin_delete_location w m f
  respond m (changes_default_location f) = handle_admin_default_location w m f
  respond m (saves_wake cookie f) = handle_manager_save_wake w m cookie f
  respond m (subscribes ui cookie body) = handle_push_subscribe w m ui cookie body
  respond m (unsubscribes cookie body) = handle_push_unsubscribe w m cookie body
  respond m (forgets_password username addr) = handle_forgot_password_submit w m username addr
  respond m (resets_with_token token password) = handle_reset_with_token_submit w m token password

  unfoldable pub step : Moment → Event → Site → Site
  step m (writes o) s = (respond m o s).1
  step m (changes_password ui cookie password confirm token) s =
      (handle_change_password_submit w m ui cookie password confirm token s).1
  step m (loses_subscription endpoint) s = remove_push_subscription w m endpoint s

  unfoldable pub run : List (Moment × Event) → Site → Site
  run [] s = s
  run ((m, e) ∷ es) s = run es (step m e s)
