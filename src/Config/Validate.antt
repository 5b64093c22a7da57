-- ===== src/Config/Validate.antt =====
-- `Validate` of backend/internal/config/config.go: the error of the first check that fails, or none.
-- The children have its parts; `time.LoadLocation` and `url.Parse` are parameters.
pub mod Rooms
pub mod Users
pub mod Locations
pub mod Channels
use re_terminal_eink_signage.Base.{
  Bool, true, false, not, ◌||◌, Option, none, some, [], ◌∷◌, ltb, ◌==◌, length, Text, text, text_eq,
  is_empty,
}
use re_terminal_eink_signage.Base.Int.{ℤ, pos, negsuc}
use re_terminal_eink_signage.Config.Types.{Config}
use re_terminal_eink_signage.Config.Checks.{
  ConfigError, bad_detail_level, bad_forced_refresh_hour, bad_persistence_mode, bad_provider,
  bad_telemetry_backend, bad_timezone, bad_wake_mode, no_rooms, reject_if, first_error,
}
use Rooms.{valid_wake_mode, validate_rooms, validate_room_labels}
use Users.{validate_users}
use Locations.{validate_locations}
use Channels.{validate_alerts}

unfoldable pub valid_telemetry_backend : Text → Bool
valid_telemetry_backend b =
    is_empty b
    || text_eq b (text "memory")
    || text_eq b (text "sqlite")
    || text_eq b (text "prometheus")

unfoldable pub valid_google_detail_level : Text → Bool
valid_google_detail_level d =
    is_empty d || text_eq d (text "free_busy") || text_eq d (text "titles")

unfoldable pub valid_config_persistence_mode : Text → Bool
valid_config_persistence_mode m =
    is_empty m
    || text_eq m (text "auto")
    || text_eq m (text "file")
    || text_eq m (text "configmap")
    || text_eq m (text "none")

abbrev pub valid_hour : Option ℤ → Bool
valid_hour none = true
valid_hour (some (pos h)) = ltb h 24
valid_hour (some (negsuc n)) = false

module _ (load_location : Text → Bool) (url_parse : Text → Option (Text × Text)) where
  unfoldable pub validate : Config → Option ConfigError
  validate c = first_error (
      reject_if (not (text_eq c.provider (text "google") || text_eq c.provider (text "demo")))
        (bad_provider c.provider)
      ∷ reject_if (length c.rooms == 0) no_rooms
      ∷ validate_rooms [] 0 c.rooms
      ∷ validate_room_labels c.rooms
      ∷ reject_if (not (load_location c.wake.timezone)) (bad_timezone c.wake.timezone)
      ∷ reject_if (not (valid_hour c.wake.forced_refresh_hour)) bad_forced_refresh_hour
      ∷ reject_if (not (valid_wake_mode c.wake.mode)) (bad_wake_mode c.wake.mode)
      ∷ reject_if (not (valid_telemetry_backend c.telemetry.backend))
          (bad_telemetry_backend c.telemetry.backend)
      ∷ reject_if (not (valid_google_detail_level c.detail_level)) (bad_detail_level c.detail_level)
      ∷ reject_if (not (valid_config_persistence_mode c.config_persistence.mode))
          (bad_persistence_mode c.config_persistence.mode)
      ∷ validate_users c
      ∷ validate_alerts url_parse c
      ∷ validate_locations c
      ∷ [])
