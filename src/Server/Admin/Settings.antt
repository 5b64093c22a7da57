-- ===== src/Server/Admin/Settings.antt =====
-- Rooms, wake defaults, alert thresholds, the fleet's Wi-Fi and the firmware: handleAdminSaveRoom to
-- handleAdminSaveFirmware of backend/internal/server/admin.go.
pub mod Serves
use re_terminal_eink_signage.Base.{
  ℕ, true, false, not, ◌&&◌, ◌||◌, ◌⊎◌, inl, inr, Option, none, some, if◌then◌else◌, Text, text,
  text_eq, is_empty, is_some, encode_hex, lookup,
}
use re_terminal_eink_signage.Config.Types.{
  AlertConfig, Config, FirmwareConfig, Room, WakeConfig, room_by_device_id,
}
use re_terminal_eink_signage.Config.Checks.{ConfigError}
use re_terminal_eink_signage.Config.Edits.{
  with_alerts, with_firmware, with_fleet_wifi_ssid, with_room, with_wake, without_room,
}
use re_terminal_eink_signage.Server.Devices.{room_or_zero}
use re_terminal_eink_signage.Server.Forms.{Form, form_get, is_sha256_hex, trim_space}
use re_terminal_eink_signage.Server.Site.{World, Moment, Site, Reply, complains, says, commit}

module _ (w : World) where
  -- The hash of the room's token by precedence, or none if the one that was sent is not a hash.
  unfoldable pub token_hash : Form → Option Room → Option Text
  token_hash f existing =
      let hashed = form_get (text "token_sha256") f in
      let plaintext = form_get (text "token") f in
      if not (is_empty hashed)
      then (if not (is_sha256_hex hashed) then none else some hashed)
      else (if not (is_empty plaintext)
          then some (encode_hex (w.sha256 plaintext))
          else some (room_or_zero existing).token_sha256)

  unfoldable pub wake_override : Form → Option Room → Option Text
  wake_override f existing =
      let m = form_get (text "wake_mode_override") f in
      if text_eq m (text "default")
      then none
      else (if text_eq m (text "smart") || text_eq m (text "flat")
          then some m
          else (room_or_zero existing).wake_mode)

  unfoldable pub flat_override : Form → Option Room → Option ℕ
  flat_override f existing =
      let v = form_get (text "wake_flat_interval_seconds") f in
      if not (is_empty v)
      then some (w.parse_uint32 v).0
      else (room_or_zero existing).flat_interval_seconds

  -- What is kept of the room that there was: its label if none is sent, and its location if the
  -- form has no such field.
  unfoldable pub room_of_form : Form → Option Room → Text → Room
  unfolding wake_override flat_override
  room_of_form f existing hash = record {
    device_id = form_get (text "device_id") f;
    name = form_get (text "name") f;
    room = form_get (text "room") f;
    token_sha256 = hash;
    location =
        if not (is_some (lookup (text "location") f)) && is_some existing
        then (room_or_zero existing).location
        else form_get (text "location") f;
    label =
        if is_empty (form_get (text "label") f)
        then (room_or_zero existing).label
        else form_get (text "label") f;
    wake_mode = wake_override f existing;
    flat_interval_seconds = flat_override f existing;
  }

  -- A new address is probed, if the server has a probe; `some` is its error.
  unfoldable pub probed : Option (Text → Option Text) → Option Room → Room → Option Text
  probed probe existing room = elim probe [
    | none ↦ none
    | some ask ↦
        (if not (is_empty room.room)
            && (not (is_some existing) || not (text_eq (room_or_zero existing).room room.room))
          then ask room.room
          else none)
  ]

  -- The edit, unless it is refused.
  abbrev pub unless_refused : Config → ConfigError ⊎ Config → Config
  unless_refused c (inl e) = c
  unless_refused c (inr next) = next

  -- A room that changed its id: the old entry goes too, unless that is refused.
  unfoldable pub renamed_room : Text → Text → Config → Config
  renamed_room original device_id next =
      if not (is_empty original) && not (text_eq original device_id)
      then unless_refused next (without_room w.load_location w.url_parse original next)
      else next

  abbrev pub then_rename : (Config → Config) → ConfigError ⊎ Config → ConfigError ⊎ Config
  then_rename f (inl e) = inl e
  then_rename f (inr next) = inr (f next)

  -- The room of the id that the form was filled with, or of the id that it sends.
  unfoldable pub existing_room : Form → Config → Option Room
  existing_room f cfg =
      let original = form_get (text "original_device_id") f in
      room_by_device_id cfg
        (if not (is_empty original) then original else form_get (text "device_id") f)

  unfoldable pub handle_admin_save_room :
      Moment → Option (Text → Option Text) → Form → Site → Reply × Site
  handle_admin_save_room m probe f s =
      let device_id = form_get (text "device_id") f in
      let original = form_get (text "original_device_id") f in
      let existing = existing_room f s.cfg in
      elim (token_hash f existing) [
        | none ↦ (
          complains (text "/admin")
              (says (text "token_sha256 must be 64 lowercase hex characters")),
          s,
        )
        | some hash ↦
            let room = room_of_form f existing hash in
            elim (probed probe existing room) [
              | some e ↦ (complains (text "/admin#rooms") (says e), s)
              | none ↦
                  commit w m
                    (then_rename (renamed_room original device_id)
                      (with_room w.load_location w.url_parse room s.cfg))
                    true (text "/admin#rooms") (text "/admin#rooms") (text "/admin?saved=rooms") s
            ]
      ]

  unfoldable pub handle_admin_delete_room : Moment → Form → Site → Reply × Site
  handle_admin_delete_room m f s =
      commit w m (without_room w.load_location w.url_parse (form_get (text "device_id") f) s.cfg)
        true (text "/admin") (text "/admin#rooms") (text "/admin?saved=rooms") s

  unfoldable pub wake_of_form : Form → WakeConfig → WakeConfig
  wake_of_form f wake = record wake {
    mode = form_get (text "mode") f;
    timezone = form_get (text "timezone") f;
    business_hours_seconds = (w.parse_uint32 (form_get (text "business_hours_seconds") f)).0;
    off_hours_seconds = (w.parse_uint32 (form_get (text "off_hours_seconds") f)).0;
    business_start_hour = w.parse_hour (form_get (text "business_start_hour") f);
    business_end_hour = w.parse_hour (form_get (text "business_end_hour") f);
    forced_refresh_hour =
        if not (is_empty (form_get (text "forced_refresh_hour") f))
        then some (w.parse_int (form_get (text "forced_refresh_hour") f))
        else none;
  }

  unfoldable pub handle_admin_save_wake_defaults : Moment → Form → Site → Reply × Site
  handle_admin_save_wake_defaults m f s =
      commit w m (with_wake w.load_location w.url_parse (wake_of_form f s.cfg.wake) s.cfg) false
        (text "/admin") (text "/admin#wake") (text "/admin?saved=wake") s

  unfoldable pub alerts_of_form : Form → AlertConfig → AlertConfig
  alerts_of_form f alerts = record alerts {
    low_battery_pct = w.parse_int (form_get (text "low_battery_pct") f);
    clear_pct = w.parse_int (form_get (text "clear_pct") f);
    min_renotify = w.parse_duration (form_get (text "min_renotify") f);
    stale_after = w.parse_duration (form_get (text "stale_after") f);
    message_style = form_get (text "message_style") f;
  }

  unfoldable pub handle_admin_save_alerts : Moment → Form → Site → Reply × Site
  handle_admin_save_alerts m f s =
      commit w m (with_alerts w.load_location w.url_parse (alerts_of_form f s.cfg.alerts) s.cfg)
        false (text "/admin") (text "/admin#alerts") (text "/admin?saved=alerts") s

  unfoldable pub handle_admin_save_fleet_wifi : Moment → Form → Site → Reply × Site
  handle_admin_save_fleet_wifi m f s =
      commit w m
        (with_fleet_wifi_ssid w.load_location w.url_parse
          (trim_space (form_get (text "wifi_ssid") f)) s.cfg)
        false (text "/admin#add-device") (text "/admin#add-device")
        (text "/admin?saved=add-device#add-device") s

  unfoldable pub firmware_of_form : Form → FirmwareConfig → FirmwareConfig
  firmware_of_form f fw = record {
    version = form_get (text "version") f;
    url = form_get (text "url") f;
    dir = form_get (text "dir") f;
    web_tools_url = fw.web_tools_url;
  }

  unfoldable pub handle_admin_save_firmware : Moment → Form → Site → Reply × Site
  handle_admin_save_firmware m f s =
      commit w m
        (with_firmware w.load_location w.url_parse (firmware_of_form f s.cfg.firmware) s.cfg) false
        (text "/admin") (text "/admin#firmware") (text "/admin?saved=firmware") s
