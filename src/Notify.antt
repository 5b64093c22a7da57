-- ===== src/Notify.antt =====
-- backend/internal/notify/notify.go and charge.go: the alert manager. Each evaluation holds the
-- mutex while it reads and changes the state, so it is one step; the message that it dispatches is
-- its result. The wording of a message is left out: `Alert` holds what the wording is made of.
pub mod Devices
pub mod Battery
pub mod Charge
pub mod Stale
use re_terminal_eink_signage.Base.{
  ℕ, ◌+◌, ◌-◌, ◌*◌, ◌/◌, Bool, true, false, not, ◌&&◌, ◌||◌, Option, none, some, List, [], ltb, leb,
  ◌==◌, if◌then◌else◌, Text, text, text_eq, is_empty, lookup, insert,
}
use re_terminal_eink_signage.Base.Int.{ℤ, pos, negsuc, ltb_ℤ}
use re_terminal_eink_signage.Calendar.{minute}

pub data Alert : Type 0 where
  low_battery : ℕ → ℤ → Alert
  charged : ℕ → Alert
  offline : ℕ → Alert
  recovered : Alert

-- `Message`; `name` and `style` are what its title and text depend on besides the alert.
pub record Message : Type 0 where
  pub alert : Alert
  pub name : Text
  pub style : Text
  pub device_id : Text
  pub room : Text
  pub location : Text

-- `devState`; a `lastMV` of 0 is none.
pub record DevState : Type 0 where
  pub alerting : Bool
  pub last_notified : ℕ
  pub last_mv : ℕ
  pub last_mv_at : ℕ
  pub charging : Bool
  pub charged_sent : Bool

abbrev pub zero_dev_state : DevState
zero_dev_state = record {
  alerting = false;
  last_notified = 0;
  last_mv = 0;
  last_mv_at = 0;
  charging = false;
  charged_sent = false;
}

pub record Settings : Type 0 where
  pub low_pct : ℤ
  pub clear_pct : ℤ
  pub renotify : ℕ
  pub style : Text

-- `Manager`; `settings` is what the live settings read now, and `locate` where a device stands.
pub record Manager : Type 0 where
  pub low_pct : ℤ
  pub clear_pct : ℤ
  pub renotify : ℕ
  pub settings : Option Settings
  pub state : List (Text × DevState)
  pub stale : List (Text × DevState)
  pub locate : Option (Text → Text)

pub is_zero_ℤ : ℤ → Bool
is_zero_ℤ (pos n) = n == 0
is_zero_ℤ (negsuc n) = false

-- `current`: a zero threshold keeps the value that the manager was built with.
unfoldable pub current : Manager → Settings
unfolding is_zero_ℤ
current m = elim m.settings [
  | none ↦ record {
    low_pct = m.low_pct;
    clear_pct = m.clear_pct;
    renotify = m.renotify;
    style = [];
  }
  | some got ↦ record {
    low_pct = if is_zero_ℤ got.low_pct then m.low_pct else got.low_pct;
    clear_pct = if is_zero_ℤ got.clear_pct then m.clear_pct else got.clear_pct;
    renotify = if got.renotify == 0 then m.renotify else got.renotify;
    style = got.style;
  }
]

-- `NormalizeStyle`.
unfoldable pub normalize_style : Text → Text
normalize_style s =
    if text_eq s (text "minimal") || text_eq s (text "detailed") then s else text "plain"

-- The message as `dispatch` sends it.
abbrev pub message : Manager → Text → Text → Alert → Message
message m device_id room alert = record {
  alert = alert;
  name = if is_empty room then device_id else room;
  style = normalize_style (current m).style;
  device_id = device_id;
  room = room;
  location = elim m.locate [ none ↦ [] | some f ↦ f device_id ];
}

unfoldable pub dev_of : Text → List (Text × DevState) → DevState
dev_of device_id states = elim (lookup device_id states) [ none ↦ zero_dev_state | some st ↦ st ]

-- `st.alerting` and `st.lastNotified` call for a message at `now`.
abbrev pub due : DevState → ℕ → ℕ → Bool
due st renotify now = not st.alerting || leb (st.last_notified + renotify) now

abbrev pub notified : ℕ → DevState → DevState
notified now st = record st { alerting = true; last_notified = now }

-- What a battery reading does to the latch of its device: whether it fires, and the state after.
unfoldable pub battery_latch : Settings → ℕ → ℕ → DevState → Bool × DevState
battery_latch cfg pct now st =
    if not (ltb_ℤ cfg.low_pct (pos pct))
    then (if due st cfg.renotify now then (true, notified now st) else (false, st))
    else (if not (ltb_ℤ (pos pct) cfg.clear_pct)
        then (false, record st { alerting = false })
        else (false, st))

unfoldable pub evaluate_battery : Text → Text → ℤ → ℤ → ℕ → Manager → Option Message × Manager
evaluate_battery device_id room (negsuc n) mv now m = (none, m)
evaluate_battery device_id room (pos pct) mv now m =
    let latch = battery_latch (current m) pct now (dev_of device_id m.state) in
    if ltb 100 pct then (none, m) else (
      if latch.0 then some (message m device_id room (low_battery pct mv)) else none,
      record m { state = insert device_id latch.1 m.state },
    )

-- What a staleness check does to the latch of its device: the alert, and the state after.
unfoldable pub stale_latch : Settings → Bool → ℕ → ℕ → DevState → Option Alert × DevState
stale_latch cfg is_stale silent_for now st =
    if is_stale && due st cfg.renotify now
    then (some (offline silent_for), notified now st)
    else (if not is_stale && st.alerting
        then (some recovered, record st { alerting = false })
        else (none, st))

unfoldable pub evaluate_stale : Text → Text → Bool → ℕ → ℕ → Manager → Option Message × Manager
evaluate_stale device_id room is_stale silent_for now m =
    let latch = stale_latch (current m) is_stale silent_for now (dev_of device_id m.stale) in
    (
      elim latch.0 [ none ↦ none | some alert ↦ some (message m device_id room alert) ],
      record m { stale = insert device_id latch.1 m.stale },
    )

abbrev pub charge_rise_mv : ℕ
charge_rise_mv = 15

abbrev pub charge_unplug_mv : ℕ
charge_unplug_mv = 40

abbrev pub charge_done_pct : ℕ
charge_done_pct = 94

abbrev pub charge_done_mv : ℕ
charge_done_mv = 3300 + charge_done_pct * (4150 - 3300) / 100

abbrev pub charge_max_gap : ℕ
charge_max_gap = 45 * minute

-- What a voltage does to the charge of its device: whether the unit is now charged, and the state.
unfoldable pub charge_latch : ℕ → ℕ → DevState → Bool × DevState
charge_latch mv now st =
    let rises = leb (st.last_mv + charge_rise_mv) mv in
    let falls = leb (mv + charge_unplug_mv) st.last_mv in
    let charging = if rises then true else (if falls then false else st.charging) in
    let sent =
      if rises
      then st.charging && st.charged_sent
      else (if falls then false else st.charged_sent) in
    let fire = charging && not sent && leb charge_done_mv mv in
    if st.last_mv == 0 || ltb (st.last_mv_at + charge_max_gap) now
    then (
      false,
      record st { last_mv = mv; last_mv_at = now; charging = false; charged_sent = false },
    )
    else (
      fire,
      record st {
        last_mv = mv;
        last_mv_at = now;
        charging = charging;
        charged_sent = sent || fire;
      },
    )

unfoldable pub evaluate_charging : Text → Text → ℤ → ℕ → Manager → Option Message × Manager
evaluate_charging device_id room (negsuc n) now m = (none, m)
evaluate_charging device_id room (pos mv) now m =
    let latch = charge_latch mv now (dev_of device_id m.state) in
    if mv == 0 then (none, m) else (
      if latch.0 then some (message m device_id room (charged mv)) else none,
      record m { state = insert device_id latch.1 m.state },
    )
