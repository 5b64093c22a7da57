-- ===== src/Notify/Stale.antt =====
-- The offline and recovery messages of notify.go.
use re_terminal_eink_signage.Base.{
  ℕ, ◌+◌, ◌≡◌, refl, Bool, false, not, ◌||◌, Option, none, some, List, [], ◌∷◌, inl, inr,
  Bool-cases, lookup, arith, leb, if◌then◌else◌, Text, text_eq,
}
use re_terminal_eink_signage.Base.Int.{ℤ, pos, negsuc}
use re_terminal_eink_signage.Notify.{
  Message, Alert, offline, recovered, DevState, Settings, Manager, current, dev_of,
  evaluate_battery, evaluate_charging, evaluate_stale, stale_latch,
}
use re_terminal_eink_signage.Notify.Devices.{
  Op, battery, charging, stale, step, dev_of_eq, step-current, dev_of-insert,
}

-- What a check is to send, given the device's last check, this one, and whether it is time to repeat.
unfoldable pub event : Bool → Bool → Bool → ℕ → Option Alert
event was is repeat silent =
    if is
    then (if not was || repeat then some (offline silent) else none)
    else (if was then some recovered else none)

abbrev pub alert_in : Option Message → Option Alert
alert_in none = none
alert_in (some msg) = some msg.alert

battery-stale :
    (d room : Text) (pct mv : ℤ) (now : ℕ) (m : Manager)
    → (evaluate_battery d room pct mv now m).1.stale ≡ m.stale
unfolding evaluate_battery
battery-stale d room (negsuc n) mv now m = refl
battery-stale d room (pos n) mv now m = ground arith

charging-stale :
    (d room : Text) (mv : ℤ) (now : ℕ) (m : Manager)
    → (evaluate_charging d room mv now m).1.stale ≡ m.stale
unfolding evaluate_charging
charging-stale d room (negsuc n) now m = refl
charging-stale d room (pos n) now m = ground arith

pub stale-dev_of :
    (d d' room : Text) (b : Bool) (silent now : ℕ) (m : Manager)
    → dev_of d (evaluate_stale d' room b silent now m).1.stale ≡ (
        if text_eq d' d
        then (stale_latch (current m) b silent now (dev_of d' m.stale)).1
        else dev_of d m.stale)
unfolding evaluate_stale
stale-dev_of d d' room b silent now m = dev_of-insert d d' _ m.stale

stale-alert :
    (d room : Text) (b : Bool) (silent now : ℕ) (m : Manager)
    → alert_in (evaluate_stale d room b silent now m).0
      ≡ (stale_latch (current m) b silent now (dev_of d m.stale)).0
unfolding evaluate_stale
stale-alert d room b silent now m = ground arith

stale_latch-alerting :
    (cfg : Settings) (b : Bool) (silent now : ℕ) (st : DevState)
    → (stale_latch cfg b silent now st).1.alerting ≡ b
unfolding stale_latch
stale_latch-alerting cfg b silent now st = ground arith

stale_latch-event :
    (cfg : Settings) (b : Bool) (silent now : ℕ) (st : DevState)
    → (stale_latch cfg b silent now st).0
      ≡ event st.alerting b (leb (st.last_notified + cfg.renotify) now) silent
unfolding stale_latch event
stale_latch-event cfg b silent now st = ground arith

-- One check of a device: whether it is silent, for how long, and when.
pub record Check : Type 0 where
  pub is_stale : Bool
  pub silent : ℕ
  pub now : ℕ

unfoldable pub checks : Text → List Op → List Check
checks d [] = []
checks d (stale d' room is_stale silent now ∷ os) =
    let rest = checks d os in
    if text_eq d' d then record { is_stale = is_stale; silent = silent; now = now } ∷ rest else rest
checks d (_ ∷ os) = checks d os

-- What the manager sends at each check of a device.
unfoldable pub alerts : Text → List Op → Manager → List (Option Alert)
alerts d [] m = []
alerts d (o ∷ os) m = at_check o (step o m).0 (alerts d os (step o m).1)
  where
    at_check : Op → Option Message → List (Option Alert) → List (Option Alert)
    at_check (stale d' room is_stale silent now) sent rest =
        if text_eq d' d then alert_in sent ∷ rest else rest
    at_check _ sent rest = rest

-- When the last offline message was sent, after an alert of this moment.
abbrev pub last_offline : Option Alert → ℕ → ℕ → ℕ
last_offline (some (offline silent)) now last = now
last_offline _ now last = last

-- What is to be sent at each check, from whether the device was silent at the check before and when
-- the last offline message was sent.
unfoldable pub expected : ℕ → Bool → ℕ → List Check → List (Option Alert)
expected renotify was last [] = []
expected renotify was last (c ∷ cs) =
    let alert = event was c.is_stale (leb (last + renotify) c.now) c.silent in
    alert ∷ expected renotify c.is_stale (last_offline alert c.now last) cs

latch-last :
    (cfg : Settings) (b : Bool) (silent now : ℕ) (st : DevState)
    → (stale_latch cfg b silent now st).1.last_notified
      ≡ last_offline
          (event st.alerting b (leb (st.last_notified + cfg.renotify) now) silent)
          now
          st.last_notified
unfolding stale_latch event
latch-last cfg b silent now st = ground arith

alerts-latch :
    (d : Text) (os : List Op) (m : Manager)
    → alerts d os m
      ≡ expected
          (current m).renotify
          (dev_of d m.stale).alerting
          (dev_of d m.stale).last_notified
          (checks d os)
unfolding alerts checks expected
alerts-latch d [] m = refl
alerts-latch d (battery d' room pct mv now ∷ os) m =
    rw (step-current (battery d' room pct mv now) m, battery-stale d' room pct mv now m) at
      (alerts-latch d os (evaluate_battery d' room pct mv now m).1)
alerts-latch d (charging d' room mv now ∷ os) m =
    rw (step-current (charging d' room mv now) m, charging-stale d' room mv now m) at
      (alerts-latch d os (evaluate_charging d' room mv now m).1)
alerts-latch d (stale d' room b silent now ∷ os) m =
    let rest = alerts-latch d os (evaluate_stale d' room b silent now m).1 in
    let rest' =
      rw (step-current (stale d' room b silent now) m, stale-dev_of d d' room b silent now m) at
        rest in
    elim (Bool-cases (text_eq d' d)) [
      | inr e ↦ let other = rw e at rest' in rw e other
      | inl e ↦
          let same = dev_of_eq d d' m.stale e in
          let own = rw (e, same, stale_latch-alerting, latch-last) at rest' in
          let sent = rw (same, stale_latch-event) at (stale-alert d' room b silent now m) in
          rw e (cc (sent, own))
    ]

-- From a manager that has not checked the device yet, whatever it is asked to evaluate and in any
-- order: at each check of the device it sends an offline message when the device has gone silent, or
-- is still silent and the repeat interval is over since the last offline message was sent, a recovery
-- message when it has come back, and otherwise nothing.
pub stale_events :
    (d : Text) (os : List Op) (m : Manager)
    → lookup d m.stale ≡ none
    → alerts d os m ≡ expected (current m).renotify false 0 (checks d os)
unfolding dev_of
stale_events d os m h = rw (dev_of, h) at (alerts-latch d os m)
