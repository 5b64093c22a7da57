-- ===== src/Notify/Charge.antt =====
-- The charge detection of charge.go.
use re_terminal_eink_signage.Base.{
  ℕ, zero, suc, ◌+◌, ◌≤◌, ◌<◌, ◌≡◌, refl, ap, inl, inr, true, false, ◌&&◌, List, [], ◌∷◌, arith,
  leb, if◌then◌else◌, Bool-cases, is_some, Text, text_eq, text_eq_refl,
}
use re_terminal_eink_signage.Base.Int.{ℤ, pos, negsuc}
use re_terminal_eink_signage.Notify.{
  DevState, Settings, Manager, current, dev_of, evaluate_battery, evaluate_charging, evaluate_stale,
  battery_latch, charge_latch, charge_unplug_mv, charge_max_gap, charge_done_mv,
}
use re_terminal_eink_signage.Notify.Devices.{
  Op, battery, charging, stale, step, dev_of_eq, battery-dev_of, battery-garbage, battery-negative,
  charging-dev_of, charging-garbage, charging-negative, stale-state,
}

-- The charged messages of a device in a history.
unfoldable pub charged_messages : Text → List Op → Manager → ℕ
charged_messages d [] m = 0
charged_messages d (o ∷ os) m = messages o + charged_messages d os (step o m).1
  where
    messages : Op → ℕ
    messages (charging d' room mv now) =
        if text_eq d' d && is_some (evaluate_charging d' room mv now m).0 then 1 else 0
    messages _ = 0

-- The history keeps a device in one charge after a voltage at a time: no reading is an unplug's drop
-- below the one before it, none comes after a longer silence than a charge may have.
unfoldable pub SameCharge : Text → ℕ → ℕ → List Op → Type 0
SameCharge d mv t [] = zero ≡ zero
SameCharge d mv t (charging d' room (pos (suc v)) now ∷ os) =
    (text_eq d' d ≡ true
      → (mv < suc v + charge_unplug_mv) × (now ≤ t + charge_max_gap) × SameCharge d (suc v) now os)
    × (text_eq d' d ≡ false → SameCharge d mv t os)
SameCharge d mv t (_ ∷ os) = SameCharge d mv t os

-- The device charges, has been told so, and this was its last reading.
abbrev Told : ℕ → ℕ → DevState → Type 0
Told mv t st =
    (st.charging ≡ true) × (st.charged_sent ≡ true) × (st.last_mv ≡ mv) × (st.last_mv_at ≡ t)

battery_latch-Told :
    (cfg : Settings) (pct now mv t : ℕ) (st : DevState)
    → Told mv t st
    → Told mv t (battery_latch cfg pct now st).1
unfolding battery_latch
battery_latch-Told cfg pct now mv t st h = ground arith

charge_latch-Told :
    (mv t mv' now : ℕ) (st : DevState)
    → Told mv t st
    → 0 < mv
    → mv < mv' + charge_unplug_mv
    → now ≤ t + charge_max_gap
    → Told mv' now (charge_latch mv' now st).1 × ((charge_latch mv' now st).0 ≡ false)
unfolding charge_latch
charge_latch-Told mv t mv' now st h p a b = ground arith

charge_latch-fires :
    (mv now : ℕ) (st : DevState)
    → (charge_latch mv now st).0 ≡ true
    → Told mv now (charge_latch mv now st).1 × (charge_done_mv ≤ mv)
unfolding charge_latch
charge_latch-fires mv now st h = ground arith

battery-Told :
    (d d' room : Text) (pct v : ℤ) (now mv t : ℕ) (m : Manager)
    → Told mv t (dev_of d m.state)
    → Told mv t (dev_of d (evaluate_battery d' room pct v now m).1.state)
battery-Told d d' room (negsuc n) v now mv t m h = rw (battery-negative d' room n v now m) h
battery-Told d d' room (pos pct) v now mv t m h = elim (Bool-cases (leb pct 100)) [
  | inl b ↦ rw (battery-dev_of d d' room pct v now m b) (elim (Bool-cases (text_eq d' d)) [
    | inl e ↦ rw e (battery_latch-Told (current m) pct now mv t _ h)
    | inr e ↦ rw e h
  ])
  | inr b ↦ rw (battery-garbage d d' room pct v now m b) h
]

charging-fired :
    (d room : Text) (mv now : ℕ) (m : Manager)
    → is_some (evaluate_charging d room (pos (suc mv)) now m).0
      ≡ (charge_latch (suc mv) now (dev_of d m.state)).0
unfolding evaluate_charging
charging-fired d room mv now m = ground arith

charging-Told :
    (d d' room : Text) (v now mv t : ℕ) (os : List Op) (m : Manager)
    → 0 < mv
    → Told mv t (dev_of d m.state)
    → SameCharge d mv t (charging d' room (pos (suc v)) now ∷ os)
    → ((text_eq d' d && is_some (evaluate_charging d' room (pos (suc v)) now m).0) ≡ false)
      × (mv' : ℕ) × (t' : ℕ) × (0 < mv')
      × Told mv' t' (dev_of d (evaluate_charging d' room (pos (suc v)) now m).1.state)
      × SameCharge d mv' t' os
unfolding SameCharge
charging-Told d d' room v now mv t os m p h s = elim (Bool-cases (text_eq d' d)) [
  | inl e ↦
      let s' = s.0 e in
      let both = charge_latch-Told mv t (suc v) now (dev_of d m.state) h p s'.0 s'.1 in
      (
        rw (e, charging-fired d' room v now m, dev_of_eq d d' m.state e, both.1) refl,
        suc v,
        now,
        ground arith,
        rw (charging-dev_of d d' room (suc v) now m (ground arith), e) both.0,
        s'.2,
      )
  | inr e ↦
      (rw e refl, mv, t, p, rw (charging-dev_of d d' room (suc v) now m (ground arith), e) h, s.1 e)
]

Told-quiet :
    (d : Text) (mv t : ℕ) (os : List Op) (m : Manager)
    → 0 < mv
    → Told mv t (dev_of d m.state)
    → SameCharge d mv t os
    → charged_messages d os m ≡ 0
unfolding charged_messages SameCharge
Told-quiet d mv t [] m p h s = refl
Told-quiet d mv t (battery d' room pct v now ∷ os) m p h s =
    let rest =
      Told-quiet d mv t os (evaluate_battery d' room pct v now m).1 p
        (battery-Told d d' room pct v now mv t m h) s in
    omega (arith, rest)
Told-quiet d mv t (charging d' room (negsuc n) now ∷ os) m p h s =
    let rest = Told-quiet d mv t os m p h s in
    rw (charging-negative d' room n now m) (ground (arith, rest))
Told-quiet d mv t (charging d' room (pos zero) now ∷ os) m p h s =
    let rest = Told-quiet d mv t os m p h s in
    rw (charging-garbage d d' room zero now m refl) (ground (arith, rest))
Told-quiet d mv t (charging d' room (pos (suc v)) now ∷ os) m p h s =
    let next = charging-Told d d' room v now mv t os m p h s in
    let rest =
      Told-quiet d next.1 next.2 os (evaluate_charging d' room (pos (suc v)) now m).1 next.3 next.4
        next.5 in
    ground (arith, next.0, rest)
Told-quiet d mv t (stale d' room is_stale silent now ∷ os) m p h s =
    let rest =
      Told-quiet d mv t os (evaluate_stale d' room is_stale silent now m).1 p
        (rw (stale-state d' room is_stale silent now m) h) s in
    omega (arith, rest)

-- One charged message per charge, and only at the charged voltage: after one, no other is sent for
-- the device, whatever else is asked of the manager, while its readings stay in the same charge,
-- that is, until one is a drop of `chargeUnplugMV` or comes after more than `chargeMaxGap`.
pub charged_once :
    (d room : Text) (mv now : ℕ) (m : Manager) (os : List Op)
    → is_some (evaluate_charging d room (pos mv) now m).0 ≡ true
    → SameCharge d mv now os
    → (charged_messages d os (evaluate_charging d room (pos mv) now m).1 ≡ 0)
      × (charge_done_mv ≤ mv)
charged_once d room zero now m os h s =
    ground (arith, ap (λ r. is_some r.0) (charging-garbage d d room zero now m refl), h)
charged_once d room (suc mv) now m os h s =
    let fired =
      charge_latch-fires (suc mv) now (dev_of d m.state)
        (rw (← charging-fired d room mv now m) h) in
    (
      Told-quiet d (suc mv) now os _ (ground arith)
          (rw (charging-dev_of d d room (suc mv) now m (ground arith), text_eq_refl d) fired.0) s,
      fired.1,
    )
