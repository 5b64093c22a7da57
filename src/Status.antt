-- ===== src/Status.antt =====
-- backend/internal/status/status.go: the rows of the status page. Headings and texts of the page are
-- left out. Clocks do not go back: no report is later than `now`.
use re_terminal_eink_signage.Base.{
  ℕ, ◌-◌, ◌*◌, ◌/◌, not, ◌&&◌, Option, none, some, List, ltb, ◌==◌, if◌then◌else◌, map, Text, text,
}
use re_terminal_eink_signage.Base.Int.{ℤ, pos, ltb_ℤ}
use re_terminal_eink_signage.Calendar.{second}
use re_terminal_eink_signage.Config.Types.{Config, Room}
use re_terminal_eink_signage.Telemetry.{Store, Snapshot, snapshot}

pub record Device : Type 0 where
  pub device_id : Text
  pub name : Text
  pub label : Text
  pub battery_pct : ℤ
  pub battery_mv : ℤ
  pub last_seen_seconds : ℕ
  pub last_render_seconds : Option ℕ
  pub rssi : ℤ
  pub firmware_version : Text
  pub boot_count : ℤ
  pub status : Text

-- Twice the sleep that the device was told, or the configured time if it was told none.
unfoldable pub stale_threshold : Config → Snapshot → ℕ
stale_threshold cfg snap =
    if ltb 0 snap.expected_wake then 2 * snap.expected_wake * second else cfg.alerts.stale_after

unfoldable pub status_of : Config → ℕ → Snapshot → Text
status_of cfg now snap =
    if ltb (stale_threshold cfg snap) (now - snap.last_seen)
    then text "stale"
    else (if ltb_ℤ (pos 0) snap.report.battery_pct
          && not (ltb_ℤ cfg.alerts.low_battery_pct snap.report.battery_pct)
        then text "low_battery"
        else text "ok")

-- The row of a room, given what the telemetry has of its display.
unfoldable pub device_of : Config → ℕ → Room → Option Snapshot → Device
device_of cfg now room none = record {
  device_id = room.device_id;
  name = room.name;
  label = room.label;
  battery_pct = pos 0;
  battery_mv = pos 0;
  last_seen_seconds = 0;
  last_render_seconds = none;
  rssi = pos 0;
  firmware_version = text "";
  boot_count = pos 0;
  status = text "unreported";
}
device_of cfg now room (some snap) = record {
  device_id = room.device_id;
  name = room.name;
  label = room.label;
  battery_pct = snap.report.battery_pct;
  battery_mv = snap.report.battery_mv;
  last_seen_seconds = (now - snap.last_seen) / second;
  last_render_seconds =
      if snap.last_rendered == 0 then none else some ((now - snap.last_rendered) / second);
  rssi = snap.report.rssi;
  firmware_version = snap.report.firmware_ver;
  boot_count = snap.report.boot_count;
  status = status_of cfg now snap;
}

unfoldable pub build : Config → Store → ℕ → List Device
build cfg tlm now = map (λ room. device_of cfg now room (snapshot room.device_id tlm)) cfg.rooms
