-- ===== src/Config/Types.antt =====
-- The records of backend/internal/config/config.go and notify.go. A number that YAML could give a
-- sign is an ℤ where the code looks at the sign, else it is taken as not negative; a duration counts
-- nanoseconds; a nil pointer is `none`. Fields that no code under model reads are left out.
use re_terminal_eink_signage.Base.{
  ℕ, Bool, true, not, ◌&&◌, Option, none, some, List, [], ◌∷◌, ltb, if◌then◌else◌, length, any,
  Text, text, text_eq, is_empty, equal_fold,
}
use re_terminal_eink_signage.Base.Int.{ℤ}

pub record Room : Type 0 where
  pub device_id : Text
  pub name : Text
  pub room : Text
  pub token_sha256 : Text
  pub location : Text
  pub label : Text
  pub wake_mode : Option Text
  pub flat_interval_seconds : Option ℕ

pub record User : Type 0 where
  pub username : Text
  pub password_sha256 : Text
  pub role : Text
  pub must_change_password : Bool
  pub totp_secret : Text
  pub email : Text
  pub locations : List Text

pub record WakeConfig : Type 0 where
  pub mode : Text
  pub business_hours_seconds : ℕ
  pub off_hours_seconds : ℕ
  pub business_start_hour : ℕ
  pub business_end_hour : ℕ
  pub timezone : Text
  pub forced_refresh_hour : Option ℤ

pub record LarkAppConfig : Type 0 where
  pub app_id : Text
  pub app_secret : Text
  pub base_url : Text

pub record WebPushConfig : Type 0 where
  pub vapid_public_key : Text
  pub vapid_private_key : Text
  pub subject : Text

pub record AlertConfig : Type 0 where
  pub low_battery_pct : ℤ
  pub clear_pct : ℤ
  pub min_renotify : ℕ
  pub webhook_url : Text
  pub stale_after : ℕ
  pub channels : List Text
  pub lark_app : LarkAppConfig
  pub lark_fallback_chat_id : Text
  pub webpush : WebPushConfig
  pub message_style : Text

pub record PushSubscription : Type 0 where
  pub username : Text
  pub location : Text
  pub endpoint : Text
  pub p256dh : Text
  pub auth : Text

pub record Location : Type 0 where
  pub id : Text
  pub name : Text
  pub lark_user_email : Text
  pub lark_chat_id : Text
  pub delivery : Text

pub record PasswordResetConfig : Type 0 where
  pub enabled : Bool
  pub smtp_host : Text
  pub smtp_port : ℕ
  pub from_address : Text
  pub public_base_url : Text

pub record AuthConfig : Type 0 where
  pub session_secret : Text
  pub password_reset : PasswordResetConfig
  pub require_2fa : Option Bool
  pub session_store_path : Text

pub record FirmwareConfig : Type 0 where
  pub version : Text
  pub url : Text
  pub dir : Text
  pub web_tools_url : Text

pub record FleetConfig : Type 0 where
  pub wifi_ssid : Text
  pub wifi_psk : Text

pub record RenderConfig : Type 0 where
  pub width : ℕ
  pub height : ℕ

pub record TelemetryConfig : Type 0 where
  pub backend : Text
  pub sqlite_path : Text
  pub retention_days : ℕ
  pub prune_interval : ℕ
  pub queue_size : ℕ

pub record ConfigPersistenceConfig : Type 0 where
  pub mode : Text
  pub file_path : Text
  pub namespace : Text
  pub name : Text
  pub key : Text

pub record Config : Type 0 where
  pub listen : Text
  pub poll_interval : ℕ
  pub wake : WakeConfig
  pub render : RenderConfig
  pub provider : Text
  pub detail_level : Text
  pub alerts : AlertConfig
  pub firmware : FirmwareConfig
  pub fleet : FleetConfig
  pub auth : AuthConfig
  pub telemetry : TelemetryConfig
  pub config_persistence : ConfigPersistenceConfig
  pub rooms : List Room
  pub users : List User
  pub push_subscriptions : List PushSubscription
  pub locations : List Location
  pub default_location : Text

-- `AuthConfig.TwoFactorRequired`.
unfoldable pub two_factor_required : AuthConfig → Bool
two_factor_required a = elim a.require_2fa [ none ↦ true | some required ↦ required ]

-- `User.Limited` and `User.CanSeeLocation`.
unfoldable pub limited : User → Bool
limited u = not (text_eq u.role (text "admin")) && ltb 0 (length u.locations)

unfoldable pub can_see_location : User → Text → Bool
unfolding limited
can_see_location u location =
    if not (limited u) then true else any (λ l. text_eq l location) u.locations

-- `Config.LocationOf` and `Config.CanSeeRoom`.
unfoldable pub location_of : Config → Room → Text
location_of c room = if not (is_empty room.location) then room.location else c.default_location

unfoldable pub can_see_room : Config → User → Room → Bool
unfolding location_of can_see_location
can_see_room c u room = can_see_location u (location_of c room)

unfoldable pub find_room : Text → List Room → Option Room
find_room device_id [] = none
find_room device_id (r ∷ rs) =
    if text_eq r.device_id device_id then some r else find_room device_id rs

unfoldable pub find_user : Text → List User → Option User
find_user username [] = none
find_user username (u ∷ us) =
    if equal_fold u.username username then some u else find_user username us

-- `RoomByDeviceID`, `UserByUsername` and `LocationByID`; `none` is `ok == false`.
unfoldable pub room_by_device_id : Config → Text → Option Room
unfolding find_room
room_by_device_id c device_id = find_room device_id c.rooms

unfoldable pub user_by_username : Config → Text → Option User
unfolding find_user
user_by_username c username = find_user username c.users

unfoldable pub find_location : Text → List Location → Option Location
find_location id [] = none
find_location id (l ∷ ls) = if text_eq l.id id then some l else find_location id ls

unfoldable pub location_by_id : Config → Text → Option Location
unfolding find_location
location_by_id c id = find_location id c.locations
