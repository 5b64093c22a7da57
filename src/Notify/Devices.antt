-- ===== src/Notify/Devices.antt =====
-- The devices of notify.go as one sees them across evaluations of any kind.
use re_terminal_eink_signage.Base.{
  ℕ, ◌≡◌, refl, ap, Bool, true, false, Option, none, some, List, [], ◌∷◌, arith, leb, ◌==◌,
  if◌then◌else◌, Text, text_eq, text_eq→eq, lookup, insert, lookup-insert,
}
use re_terminal_eink_signage.Base.Int.{ℤ, pos, negsuc}
use re_terminal_eink_signage.Notify.{
  Message, DevState, zero_dev_state, Manager, current, dev_of, evaluate_battery, evaluate_charging,
  evaluate_stale, battery_latch, charge_latch,
}

-- What the server asks of the manager, in any order.
pub data Op : Type 0 where
  battery : Text → Text → ℤ → ℤ → ℕ → Op
  charging : Text → Text → ℤ → ℕ → Op
  stale : Text → Text → Bool → ℕ → ℕ → Op

abbrev pub step : Op → Manager → Option Message × Manager
step (battery d room pct mv now) m = evaluate_battery d room pct mv now m
step (charging d room mv now) m = evaluate_charging d room mv now m
step (stale d room is_stale silent now) m = evaluate_stale d room is_stale silent now m

unfoldable pub run : List Op → Manager → Manager
run [] m = m
run (o ∷ os) m = run os (step o m).1

entry : Option DevState → DevState
entry none = zero_dev_state
entry (some st) = st

dev_of-entry : (d : Text) (s : List (Text × DevState)) → dev_of d s ≡ entry (lookup d s)
unfolding entry dev_of
dev_of-entry d s =
    elim (lookup d s) as (λ o. elim o [ none ↦ zero_dev_state | some st ↦ st ] ≡ entry o) [
      | none ↦ refl
      | some st ↦ refl
    ]

pub dev_of-insert :
    (d d' : Text) (st : DevState) (s : List (Text × DevState))
    → dev_of d (insert d' st s) ≡ (if text_eq d' d then st else dev_of d s)
unfolding entry
dev_of-insert d d' st s =
    rw (dev_of-entry d (insert d' st s), lookup-insert d' d st s, dev_of-entry d s) (ground arith)

pub dev_of_eq :
    (d d' : Text) (s : List (Text × DevState)) → text_eq d' d ≡ true → dev_of d' s ≡ dev_of d s
dev_of_eq d d' s h = rw (text_eq→eq d' d h) refl

pub step-current : (o : Op) (m : Manager) → current (step o m).1 ≡ current m
unfolding evaluate_battery evaluate_charging evaluate_stale current
step-current (battery d room (negsuc n) mv now) m = refl
step-current (battery d room (pos pct) mv now) m = ground arith
step-current (charging d room (negsuc n) now) m = refl
step-current (charging d room (pos mv) now) m = ground arith
step-current (stale d room is_stale silent now) m = ground arith

pub battery-dev_of :
    (d d' room : Text) (pct : ℕ) (mv : ℤ) (now : ℕ) (m : Manager)
    → leb pct 100 ≡ true
    → dev_of d (evaluate_battery d' room (pos pct) mv now m).1.state ≡ (
        if text_eq d' d
        then (battery_latch (current m) pct now (dev_of d m.state)).1
        else dev_of d m.state)
unfolding evaluate_battery
battery-dev_of d d' room pct mv now m h = ground (
  arith,
  h,
  dev_of-insert d d' (battery_latch (current m) pct now (dev_of d' m.state)).1 m.state,
  ap (λ st. (battery_latch (current m) pct now st).1) (dev_of_eq d d' m.state _),
)

pub battery-garbage :
    (d d' room : Text) (pct : ℕ) (mv : ℤ) (now : ℕ) (m : Manager)
    → leb pct 100 ≡ false
    → evaluate_battery d' room (pos pct) mv now m ≡ (none, m)
unfolding evaluate_battery
battery-garbage d d' room pct mv now m h = ground arith

pub charging-dev_of :
    (d d' room : Text) (mv now : ℕ) (m : Manager)
    → (mv == 0) ≡ false
    → dev_of d (evaluate_charging d' room (pos mv) now m).1.state
      ≡ (if text_eq d' d then (charge_latch mv now (dev_of d m.state)).1 else dev_of d m.state)
unfolding evaluate_charging
charging-dev_of d d' room mv now m h = ground (
  arith,
  h,
  dev_of-insert d d' (charge_latch mv now (dev_of d' m.state)).1 m.state,
  dev_of_eq d d' m.state,
)

pub charging-garbage :
    (d d' room : Text) (mv now : ℕ) (m : Manager)
    → (mv == 0) ≡ true
    → evaluate_charging d' room (pos mv) now m ≡ (none, m)
unfolding evaluate_charging
charging-garbage d d' room mv now m h = ground arith

pub stale-state :
    (d room : Text) (is_stale : Bool) (silent now : ℕ) (m : Manager)
    → (evaluate_stale d room is_stale silent now m).1.state ≡ m.state
unfolding evaluate_stale
stale-state d room is_stale silent now m = ground arith

pub battery-negative :
    (d room : Text) (n : ℕ) (mv : ℤ) (now : ℕ) (m : Manager)
    → evaluate_battery d room (negsuc n) mv now m ≡ (none, m)
unfolding evaluate_battery
battery-negative d room n mv now m = refl

pub charging-negative :
    (d room : Text) (n now : ℕ) (m : Manager)
    → evaluate_charging d room (negsuc n) now m ≡ (none, m)
unfolding evaluate_charging
charging-negative d room n now m = refl
