-- ===== src/Examples/Fleet.antt =====
-- A fleet of two displays of one room, with an administrator and a limited manager.
use re_terminal_eink_signage.Base.{
  ◌≡◌, refl, Bool, true, false, Option, none, some, [], ◌∷◌, replicate, Text, text, text_eq, lower,
  fold, has_prefix, lookup, insert,
}
use re_terminal_eink_signage.Base.Int.{pos}
use re_terminal_eink_signage.Config.Types.{
  Config, Location, PushSubscription, Room, User, find_location,
}
use re_terminal_eink_signage.Config.Checks.{first_error, reject_if}
use re_terminal_eink_signage.Config.Checks.{contains}
use re_terminal_eink_signage.Config.Encodings.{is_blank, b64url, trim_right_pad}
use re_terminal_eink_signage.Config.Validate.{
  validate, valid_telemetry_backend, valid_google_detail_level, valid_config_persistence_mode,
}
use re_terminal_eink_signage.Config.Validate.Rooms.{
  valid_wake_mode, validate_rooms, by_room, validate_labels, validate_groups, validate_room_labels,
}
use re_terminal_eink_signage.Config.Validate.Users.{
  valid_user_role, validate_accounts, validate_password_reset, validate_users,
}
use re_terminal_eink_signage.Config.Validate.Channels.{
  validate_alerts, validate_channel, validate_channels, validate_subscriptions, is_https,
  validate_push_subscription,
}
use re_terminal_eink_signage.Config.Validate.Locations.{
  validate_limits, validate_listed, validate_location, validate_location_list, validate_locations,
  validate_room_locations,
}

abbrev pub known_zone : Text → Bool
known_zone zone = text_eq zone (text "Europe/Vienna")

abbrev pub parsed : Text → Option (Text × Text)
parsed url = some (text "https", text "push")

abbrev pub hash : Text
hash = replicate 64 97

abbrev pub door : Room
door = record {
  device_id = text "e1001";
  name = text "Lobby";
  room = text "lobby@x";
  token_sha256 = hash;
  location = text "hq";
  label = text "Door";
  wake_mode = some (text "smart");
  flat_interval_seconds = none;
}

abbrev pub wall : Room
wall = record {
  device_id = text "e1002";
  name = text "Lobby";
  room = text "Lobby@x";
  token_sha256 = hash;
  location = [];
  label = text "Wall";
  wake_mode = none;
  flat_interval_seconds = none;
}

abbrev pub ada : User
ada = record {
  username = text "ada";
  password_sha256 = hash;
  role = text "admin";
  must_change_password = false;
  totp_secret = text "ABC";
  email = [];
  locations = [];
}

abbrev pub bob : User
bob = record {
  username = text "bob";
  password_sha256 = hash;
  role = text "manager";
  must_change_password = false;
  totp_secret = [];
  email = [];
  locations = text "hq" ∷ [];
}

abbrev pub place : Text → Location
place id = record { id = id; name = id; lark_user_email = []; lark_chat_id = []; delivery = [] }

abbrev pub fleet : Config
fleet = record {
  listen = text ":8080";
  poll_interval = 60;
  wake = record {
    mode = text "flat";
    business_hours_seconds = 900;
    off_hours_seconds = 3600;
    business_start_hour = 8;
    business_end_hour = 18;
    timezone = text "Europe/Vienna";
    forced_refresh_hour = some (pos 3);
  };
  render = record { width = 800; height = 480 };
  provider = text "demo";
  detail_level = [];
  alerts = record {
    low_battery_pct = pos 15;
    clear_pct = pos 25;
    min_renotify = 0;
    webhook_url = [];
    stale_after = 0;
    channels = text "log" ∷ [];
    lark_app = record { app_id = []; app_secret = []; base_url = [] };
    lark_fallback_chat_id = [];
    webpush = record { vapid_public_key = []; vapid_private_key = []; subject = [] };
    message_style = [];
  };
  firmware = record { version = []; url = []; dir = []; web_tools_url = [] };
  fleet = record { wifi_ssid = []; wifi_psk = [] };
  auth = record {
    session_secret = replicate 32 97;
    password_reset = record {
      enabled = false;
      smtp_host = [];
      smtp_port = 0;
      from_address = [];
      public_base_url = [];
    };
    require_2fa = none;
    session_store_path = [];
  };
  telemetry = record {
    backend = [];
    sqlite_path = [];
    retention_days = 0;
    prune_interval = 0;
    queue_size = 0;
  };
  config_persistence = record { mode = []; file_path = []; namespace = []; name = []; key = [] };
  rooms = door ∷ wall ∷ [];
  users = ada ∷ bob ∷ [];
  push_subscriptions = [];
  locations = place (text "hq") ∷ place (text "lab") ∷ [];
  default_location = text "hq";
}

-- The fleet without the requirement of a second factor.
abbrev pub relaxed : Config
relaxed = record fleet { auth = record fleet.auth { require_2fa = some false } }

-- An account that was made from Ada's, and a browser of Bob's.
abbrev pub eve : User
eve = record ada { username = text "eve"; role = text "manager" }

abbrev pub browser : PushSubscription
browser = record {
  username = text "bob";
  location = text "hq";
  endpoint = text "https://push/1";
  p256dh = replicate 87 65;
  auth = replicate 22 65;
}

abbrev pub renewed_ada : User
renewed_ada = record ada { must_change_password = true }

abbrev pub smart_door : Room
smart_door = record door { wake_mode = some (text "flat"); flat_interval_seconds = some 300 }

-- The fleet with other rooms, accounts and locations is accepted.
pub variants_valid :
    (validate known_zone parsed fleet ≡ none)
    × (validate known_zone parsed (record fleet { rooms = door ∷ [] }) ≡ none)
    × (validate known_zone parsed (record fleet { users = ada ∷ [] }) ≡ none)
    × (validate known_zone parsed (record fleet { locations = place (text "hq") ∷ [] }) ≡ none)
    × (validate known_zone parsed (record fleet { users = renewed_ada ∷ bob ∷ [] }) ≡ none)
    × (validate known_zone parsed (record fleet { users = ada ∷ bob ∷ eve ∷ [] }) ≡ none)
    × (validate known_zone parsed
          (record fleet { users = ada ∷ []; push_subscriptions = browser ∷ [] })
        ≡ none)
    × (validate known_zone parsed (record fleet { rooms = smart_door ∷ wall ∷ [] }) ≡ none)
unfolding validate first_error reject_if contains text_eq lower fold has_prefix lookup insert
    validate_rooms valid_wake_mode validate_room_labels validate_groups by_room validate_labels
    valid_telemetry_backend valid_google_detail_level valid_config_persistence_mode validate_users
    validate_password_reset validate_accounts valid_user_role validate_alerts validate_channels
    validate_channel validate_subscriptions validate_locations validate_location_list
    validate_location is_blank validate_limits validate_push_subscription is_https b64url
    trim_right_pad find_location validate_listed validate_room_locations
variants_valid = (refl, refl, refl, refl, refl, refl, refl, refl)
