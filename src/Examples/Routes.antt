-- ===== src/Examples/Routes.antt =====
-- Theorems about the routes of the displays, for a display that holds an older frame.
use re_terminal_eink_signage.Base.{
  ℕ, ◌≡◌, refl, ◌⊎◌, false, Option, none, some, List, [], ◌∷◌, replicate, Text, text, text_eq,
  has_prefix, hex_value, decode_hex, lookup, insert,
}
use re_terminal_eink_signage.Base.Int.{pos}
use re_terminal_eink_signage.Cache.{Entry}
use re_terminal_eink_signage.Config.Wake.{Zone}
use re_terminal_eink_signage.Render.Payload.{Payload}
use re_terminal_eink_signage.Telemetry.{Report, new}
use re_terminal_eink_signage.Server.Devices.{
  wanted, device_auth, new_device_auth, Request, Server, plain, verify, handle_display,
}
use re_terminal_eink_signage.Server.Devices.Authorized.{
  telemetry, handle, IsAuthorized, handle-IsAuthorized,
}
use re_terminal_eink_signage.Server.Devices.Synced.{shown_after, handle_display-shown}
use re_terminal_eink_signage.Examples.Fleet.{fleet}

-- One hash for every token.
abbrev digest : Text → List ℕ
digest token = replicate 32 170

abbrev utc : Text → Zone
utc name = record { wall = λ t. t; instant = λ t. t }

abbrev unreadable : Text → Option Report
unreadable body = none

abbrev payload : Payload
payload = record { bytes = 7 ∷ 8 ∷ []; crc32 = 5; next_wake_s = 0; compressed = false }

abbrev cached : Entry
cached = record {
  payload = some payload;
  preview_png = none;
  etag = text "v2";
  rendered_at = 0;
  err = none;
  cur = none;
  next = none;
  last_forced_refresh_day = none;
}

abbrev server : Server
server = record {
  cfg = fleet;
  auth = new_device_auth fleet;
  names = [];
  cache = (text "e1001", cached) ∷ [];
  tlm = new;
  alerts = record {
    low_pct = pos 15;
    clear_pct = pos 25;
    renotify = 0;
    settings = none;
    state = [];
    stale = [];
    locate = none;
  };
}

abbrev request : Text → Request
request authorization = record {
  device = text "e1001";
  authorization = authorization;
  if_none_match = text "v1";
  body = [];
}

handle-IsAuthorized_example :
    (handle digest utc unreadable telemetry (request (text "Basic x")) 0 server
      ≡ (some (plain 401), server))
    ⊎ IsAuthorized digest fleet (request (text "Basic x"))
handle-IsAuthorized_example =
    handle-IsAuthorized digest utc unreadable telemetry (request (text "Basic x")) 0 server refl

handle_display-shown_example :
    shown_after
      (handle_display digest utc unreadable (request (text "Bearer t")) 0 server).0
      (text "v1", [])
    ≡ (text "v2", 7 ∷ 8 ∷ [])
unfolding verify new_device_auth device_auth wanted decode_hex hex_value lookup insert text_eq
    has_prefix
handle_display-shown_example =
    handle_display-shown digest utc unreadable (request (text "Bearer t")) 0 server cached payload
      (text "v1", []) refl refl refl refl refl (λ h. cc)
