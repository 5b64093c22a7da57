-- ===== src/Notify/Battery.antt =====
-- The hysteresis of the battery alert of notify.go.
use re_terminal_eink_signage.Base.{
  ℕ, zero, ◌+◌, ◌<◌, ◌≡◌, refl, ap, ◌∙◌, inl, inr, true, false, ◌&&◌, List, [], ◌∷◌, arith, leb,
  ◌==◌, if◌then◌else◌, Bool-cases, is_some, Text, text_eq, text_eq_refl,
}
use re_terminal_eink_signage.Base.Int.{ℤ, pos, negsuc, ltb_ℤ}
use re_terminal_eink_signage.Notify.{
  DevState, Settings, Manager, current, dev_of, evaluate_battery, evaluate_charging, battery_latch,
  charge_latch,
}
use re_terminal_eink_signage.Notify.Devices.{
  Op, battery, charging, stale, step, step-current, dev_of_eq, battery-dev_of, battery-garbage,
  charging-dev_of, charging-garbage, battery-negative, charging-negative, stale-state,
}

-- The battery alerts of a device in a history.
unfoldable pub battery_alerts : Text → List Op → Manager → ℕ
battery_alerts d [] m = 0
battery_alerts d (o ∷ os) m = alerts o + battery_alerts d os (step o m).1
  where
    alerts : Op → ℕ
    alerts (battery d' room pct mv now) =
        if text_eq d' d && is_some (evaluate_battery d' room pct mv now m).0 then 1 else 0
    alerts _ = 0

-- Every reading of the device satisfies a condition on its percentage and its time.
unfoldable pub Readings : (ℤ → ℕ → Type 0) → Text → List Op → Type 0
Readings P d [] = zero ≡ zero
Readings P d (battery d' room pct mv now ∷ os) = (text_eq d' d ≡ true → P pct now) × Readings P d os
Readings P d (_ ∷ os) = Readings P d os

-- The latch of a device: it is set, and its last message was sent at a time.
abbrev Latched : ℕ → DevState → Type 0
Latched t st = (st.alerting ≡ true) × (st.last_notified ≡ t)

charge_latch-latch :
    (mv now : ℕ) (st : DevState)
    → ((charge_latch mv now st).1.alerting ≡ st.alerting)
      × ((charge_latch mv now st).1.last_notified ≡ st.last_notified)
unfolding charge_latch
charge_latch-latch mv now st = (ground arith, ground arith)

charging-Latched :
    (d d' room : Text) (mv : ℤ) (now t : ℕ) (m : Manager)
    → Latched t (dev_of d m.state)
    → Latched t (dev_of d (evaluate_charging d' room mv now m).1.state)
charging-Latched d d' room (negsuc n) now t m h = rw (charging-negative d' room n now m) h
charging-Latched d d' room (pos mv) now t m h = elim (Bool-cases (mv == 0)) [
  | inl z ↦ rw (charging-garbage d d' room mv now m z) h
  | inr z ↦ rw (charging-dev_of d d' room mv now m z) (elim (Bool-cases (text_eq d' d)) [
    | inl e ↦ rw e (ground (arith, charge_latch-latch mv now (dev_of d m.state), h))
    | inr e ↦ rw e h
  ])
]

battery_latch-quiet :
    (cfg : Settings) (pct now : ℕ) (st : DevState)
    → st.alerting ≡ true
    → ltb_ℤ (pos pct) cfg.clear_pct ≡ true
    → now < st.last_notified + cfg.renotify
    → battery_latch cfg pct now st ≡ (false, st)
unfolding battery_latch
battery_latch-quiet cfg pct now st a p q = ground arith

battery_latch-fires :
    (cfg : Settings) (pct now : ℕ) (st : DevState)
    → (battery_latch cfg pct now st).0 ≡ true
    → Latched now (battery_latch cfg pct now st).1
unfolding battery_latch
battery_latch-fires cfg pct now st h = (ground arith, ground arith)

-- Readings that do not recover, before a time.
abbrev pub Unrecovered : ℤ → ℕ → ℤ → ℕ → Type 0
Unrecovered clear until pct now = (ltb_ℤ pct clear ≡ true) × (now < until)

battery-fired :
    (d' room : Text) (pct : ℕ) (mv : ℤ) (now : ℕ) (m : Manager)
    → leb pct 100 ≡ true
    → is_some (evaluate_battery d' room (pos pct) mv now m).0
      ≡ (battery_latch (current m) pct now (dev_of d' m.state)).0
unfolding evaluate_battery
battery-fired d' room pct mv now m h = ground arith

battery-quiet :
    (d d' room : Text) (pct mv : ℤ) (now t : ℕ) (m : Manager)
    → Latched t (dev_of d m.state)
    → (text_eq d' d ≡ true → Unrecovered (current m).clear_pct (t + (current m).renotify) pct now)
    → Latched t (dev_of d (evaluate_battery d' room pct mv now m).1.state)
      × ((text_eq d' d && is_some (evaluate_battery d' room pct mv now m).0) ≡ false)
battery-quiet d d' room (negsuc n) mv now t m h calm =
    rw (battery-negative d' room n mv now m) (h, ground arith)
battery-quiet d d' room (pos pct) mv now t m h calm = elim (Bool-cases (leb pct 100)) [
  | inl b ↦
      rw (battery-dev_of d d' room pct mv now m b, battery-fired d' room pct mv now m b)
        (elim (Bool-cases (text_eq d' d)) [
          | inl e ↦ rw (e, dev_of_eq d d' m.state e, quiet e) (h, refl)
          | inr e ↦ rw e (h, refl)
        ])
  | inr b ↦ rw (battery-garbage d d' room pct mv now m b) (h, ground arith)
]
  where
    quiet :
        text_eq d' d ≡ true
        → battery_latch (current m) pct now (dev_of d m.state) ≡ (false, dev_of d m.state)
    quiet e =
        battery_latch-quiet (current m) pct now (dev_of d m.state) h.0 (calm e).0
          (rw h.1 (calm e).1)

module _ (d : Text) (cfg : Settings) (t : ℕ) where
  Calm : ℤ → ℕ → Type 0
  Calm = Unrecovered cfg.clear_pct (t + cfg.renotify)

  Latched-quiet :
      (os : List Op) (m : Manager)
      → current m ≡ cfg
      → Latched t (dev_of d m.state)
      → Readings Calm d os
      → battery_alerts d os m ≡ 0
  unfolding battery_alerts Readings Calm
  Latched-quiet [] m c h calm = refl
  Latched-quiet (battery d' room pct mv now ∷ os) m c h calm =
      let both = battery-quiet d d' room pct mv now t m h (rw c calm.0) in
      let rest =
        Latched-quiet os _ (step-current (battery d' room pct mv now) m ∙ c) both.0 calm.1 in
      rw both.1 (omega (arith, rest))
  Latched-quiet (charging d' room mv now ∷ os) m c h calm =
      let rest =
        Latched-quiet os _ (step-current (charging d' room mv now) m ∙ c)
          (charging-Latched d d' room mv now t m h) calm in
      omega (arith, rest)
  Latched-quiet (stale d' room is_stale silent now ∷ os) m c h calm =
      let rest =
        Latched-quiet os _ (step-current (stale d' room is_stale silent now) m ∙ c)
          (rw (stale-state d' room is_stale silent now m) h) calm in
      omega (arith, rest)

battery-fires-Latched :
    (d room : Text) (pct : ℕ) (mv : ℤ) (now : ℕ) (m : Manager)
    → is_some (evaluate_battery d room (pos pct) mv now m).0 ≡ true
    → Latched now (dev_of d (evaluate_battery d room (pos pct) mv now m).1.state)
battery-fires-Latched d room pct mv now m h = elim (Bool-cases (leb pct 100)) [
  | inl b ↦
      rw (battery-dev_of d d room pct mv now m b, text_eq_refl d)
        (battery_latch-fires (current m) pct now (dev_of d m.state)
          (rw (← battery-fired d room pct mv now m b) h))
  | inr b ↦ ground (arith, ap (λ r. is_some r.0) (battery-garbage d d room pct mv now m b), h)
]

-- After a battery alert of a device no other one is sent, whatever is asked of the manager for it
-- or for other devices, while its readings stay below the recovery line and earlier than the
-- repeat interval after the alert.
pub battery_alert_once :
    (d room : Text) (pct : ℕ) (mv : ℤ) (now : ℕ) (m : Manager) (os : List Op)
    → is_some (evaluate_battery d room (pos pct) mv now m).0 ≡ true
    → Readings (Unrecovered (current m).clear_pct (now + (current m).renotify)) d os
    → battery_alerts d os (evaluate_battery d room (pos pct) mv now m).1 ≡ 0
unfolding Calm
battery_alert_once d room pct mv now m os h calm =
    Latched-quiet d (current m) now os _ (step-current (battery d room (pos pct) mv now) m)
      (battery-fires-Latched d room pct mv now m h) calm
