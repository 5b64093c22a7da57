-- ===== src/Server/Devices.antt =====
-- The two routes of the displays: backend/internal/server/auth.go, and handleDisplay and
-- handleTelemetry of handlers.go, with the tables that refreshDerived of server.go builds. SHA-256,
-- the time zones and the decoding of a JSON report are parameters. An answer keeps the headers that
-- the displays read; `none` is a panic, which `recover` turns into an error.
pub mod Authorized
pub mod Synced
use re_terminal_eink_signage.Base.{
  ℕ, Bool, false, not, ◌&&◌, Option, none, some, List, [], ◌∷◌, ◌==◌, if◌then◌else◌, length, drop,
  Text, text, text_eq, is_empty, has_prefix, decode_hex, lookup, insert,
}
use re_terminal_eink_signage.Cache as Cache
use re_terminal_eink_signage.Cache.{Entry, should_force_full_refresh}
use re_terminal_eink_signage.Config.Types.{Config, FirmwareConfig, Room, room_by_device_id}
use re_terminal_eink_signage.Config.Wake.{Zone, next_wake_duration, clamp_wake_seconds}
use re_terminal_eink_signage.Notify.{Manager, evaluate_battery, evaluate_charging}
use re_terminal_eink_signage.Telemetry as Telemetry
use re_terminal_eink_signage.Telemetry.{Report, ingest, set_expected_wake}

-- The hash that a room's token must have, if its 64 digits are hexadecimal.
unfoldable pub wanted : Room → Option (List ℕ)
wanted r = elim (decode_hex r.token_sha256) [
  | none ↦ none
  | some b ↦ (if length b == 32 then some b else none)
]

-- The loop of `newDeviceAuth`.
unfoldable pub device_auth : List Room → List (Text × List ℕ) → List (Text × List ℕ)
device_auth [] want = want
device_auth (r ∷ rs) want = elim (wanted r) [
  | none ↦ device_auth rs want
  | some b ↦ device_auth rs (insert r.device_id b want)
]

unfoldable pub new_device_auth : Config → List (Text × List ℕ)
unfolding device_auth
new_device_auth cfg = device_auth cfg.rooms []

unfoldable pub names_of : List Room → List (Text × Text) → List (Text × Text)
names_of [] names = names
names_of (r ∷ rs) names = names_of rs (insert r.device_id r.name names)

-- The part of `Server` that these routes use.
pub record Server : Type 0 where
  pub cfg : Config
  pub auth : List (Text × List ℕ)
  pub names : List (Text × Text)
  pub cache : Cache.Store
  pub tlm : Telemetry.Store
  pub alerts : Manager

-- `refreshDerived`, without the directory of accounts.
unfoldable pub refresh_derived : Config → Server → Server
unfolding new_device_auth names_of
refresh_derived cfg s = record s { auth = new_device_auth cfg; names = names_of cfg.rooms [] }

pub record Request : Type 0 where
  pub device : Text
  pub authorization : Text
  pub if_none_match : Text
  pub body : Text

pub record Response : Type 0 where
  pub status : ℕ
  pub retry_after : Option ℕ
  pub next_wake : Option ℕ
  pub etag : Text
  pub fw_target : Text
  pub fw_url : Text
  pub forced : Bool
  pub content : List ℕ

-- An answer that has a status and nothing else.
abbrev pub plain : ℕ → Response
plain status = record {
  status = status;
  retry_after = none;
  next_wake = none;
  etag = [];
  fw_target = [];
  fw_url = [];
  forced = false;
  content = [];
}

-- The zero `Room`, whose nil pointers mean the fleet's defaults.
abbrev pub room_or_zero : Option Room → Room
room_or_zero (some r) = r
room_or_zero none = record {
  device_id = [];
  name = [];
  room = [];
  token_sha256 = [];
  location = [];
  label = [];
  wake_mode = none;
  flat_interval_seconds = none;
}

-- `setFirmwareHeaders`; an empty text is a header that is not set.
abbrev pub with_firmware_headers : FirmwareConfig → Response → Response
with_firmware_headers f r =
    if is_empty f.version then r else record r { fw_target = f.version; fw_url = f.url }

unfoldable pub verify : (Text → List ℕ) → List (Text × List ℕ) → Text → Text → Bool
verify sha256 want device authorization = elim (lookup device want) [
  | none ↦ false
  | some b ↦
      (if not (has_prefix authorization (text "Bearer "))
        then false
        else text_eq (sha256 (drop 7 authorization)) b)
]

-- The answer to a display that has a frame in the cache, given whether it is forced to repaint.
abbrev pub frame : Config → Entry → ℕ → Text → Bool → Option Response
frame cfg e next_wake if_none_match forced =
    let headers =
      with_firmware_headers cfg.firmware
        (record (plain 200) { next_wake = some next_wake; etag = e.etag }) in
    if not forced && not (is_empty if_none_match) && text_eq if_none_match e.etag
    then some (record headers { status = 304 })
    else elim e.payload [
      | none ↦ none
      | some p ↦ some (record headers { forced = forced; content = p.bytes })
    ]

module _ (sha256 : Text → List ℕ) (load_zone : Text → Zone) (decode : Text → Option Report) where
  unfoldable pub handle_display : Request → ℕ → Server → Option Response × Server
  handle_display r now s =
      let loc = load_zone s.cfg.wake.timezone in
      let room = room_or_zero (room_by_device_id s.cfg r.device) in
      let no_payload : Option Response × Server = (
        some (record (plain 503) {
          retry_after = some 30;
          next_wake = some (next_wake_duration s.cfg.wake loc room none none now);
        }),
        s,
      ) in
      if not (verify sha256 s.auth r.device r.authorization)
      then (some (plain 401), s)
      else (elim (Cache.get r.device s.cache) [
        | none ↦ no_payload
        | some e ↦
            let next_wake = next_wake_duration s.cfg.wake loc room e.cur e.next now in
            let s' : Server = record s {
              tlm = set_expected_wake r.device (clamp_wake_seconds next_wake) s.tlm;
            } in
            let force : Bool × Cache.Store = elim s.cfg.wake.forced_refresh_hour [
              | none ↦ (false, s.cache)
              | some h ↦ should_force_full_refresh r.device now h loc s.cache
            ] in
            if is_empty e.etag
            then no_payload
            else (frame s.cfg e next_wake r.if_none_match force.0, record s' { cache = force.1 })
      ])

  unfoldable pub handle_telemetry : Request → ℕ → Server → Option Response × Server
  handle_telemetry r now s =
      if not (verify sha256 s.auth r.device r.authorization)
      then (some (plain 401), s)
      else (elim (decode r.body) [
        | none ↦ (some (plain 400), s)
        | some rep ↦
            let name : Text = elim (lookup r.device s.names) [ none ↦ [] | some n ↦ n ] in
            let battery =
              evaluate_battery r.device name rep.battery_pct rep.battery_mv now s.alerts in
            let charging = evaluate_charging r.device name rep.battery_mv now battery.1 in
            (
              some (plain 204),
              record s { tlm = ingest r.device rep now s.tlm; alerts = charging.1 },
            )
      ])
