-- ===== src/Examples/Alerts.antt =====
-- The alerts of one display over a few reports.
use re_terminal_eink_signage.Base.{
  ◌+◌, ◌*◌, ◌≤◌, ◌≡◌, refl, true, false, none, some, List, [], ◌∷◌, arith, is_some, Text, text,
  text_eq, lookup,
}
use re_terminal_eink_signage.Base.Int.{pos}
use re_terminal_eink_signage.Calendar.{minute}
use re_terminal_eink_signage.Notify.{
  offline, recovered, zero_dev_state, Manager, current, dev_of, evaluate_battery, evaluate_charging,
  charge_done_mv, charge_latch, battery_latch,
}
use re_terminal_eink_signage.Notify.Devices.{Op, battery, charging, stale}
use re_terminal_eink_signage.Notify.Battery.{
  battery_alerts, Readings, Unrecovered, battery_alert_once,
}
use re_terminal_eink_signage.Notify.Charge.{charged_messages, SameCharge, charged_once}
use re_terminal_eink_signage.Notify.Stale.{event, checks, alerts, expected, stale_events}

abbrev device : Text
device = text "rt-1"

abbrev oak : Text
oak = text "Oak"

-- The charge of the device has been climbing to 4080 mV by minute 100.
abbrev manager : Manager
manager = record {
  low_pct = pos 45;
  clear_pct = pos 55;
  renotify = 1440 * minute;
  settings = none;
  state =
      (device, record zero_dev_state { last_mv = 4080; last_mv_at = 100 * minute; charging = true })
      ∷ [];
  stale = [];
  locate = none;
}

fires : is_some (evaluate_battery device oak (pos 40) (pos 3700) (110 * minute) manager).0 ≡ true
unfolding evaluate_battery battery_latch dev_of lookup text_eq current
fires = refl

abbrev reports : List Op
reports =
    battery device oak (pos 43) (pos 3690) (120 * minute)
    ∷ charging device oak (pos 3690) (120 * minute)
    ∷ stale device oak false 0 (125 * minute)
    ∷ battery device oak (pos 54) (pos 3700) (130 * minute)
    ∷ []

reports-Readings :
    Readings
      (Unrecovered (current manager).clear_pct (110 * minute + (current manager).renotify))
      device
      reports
unfolding Readings current
reports-Readings = ((λ h. (refl, omega arith)), ((λ h. (refl, omega arith)), refl))

battery_alert_once_example :
    battery_alerts device reports
      (evaluate_battery device oak (pos 40) (pos 3700) (110 * minute) manager).1
    ≡ 0
battery_alert_once_example =
    battery_alert_once device oak 40 (pos 3700) (110 * minute) manager reports fires
      reports-Readings

tells : is_some (evaluate_charging device oak (pos 4100) (110 * minute) manager).0 ≡ true
unfolding evaluate_charging charge_latch dev_of lookup text_eq
tells = refl

abbrev still_charging : List Op
still_charging =
    charging device oak (pos 4120) (120 * minute)
    ∷ charging device oak (pos 4140) (130 * minute)
    ∷ []

still_charging-SameCharge : SameCharge device 4100 (110 * minute) still_charging
unfolding SameCharge text_eq
still_charging-SameCharge = (
  (λ h. (omega arith, omega arith, ((λ h. (omega arith, omega arith, refl)), (λ h. refl)))),
  (λ h. cc),
)

charged_once_example :
    (charged_messages device still_charging
        (evaluate_charging device oak (pos 4100) (110 * minute) manager).1
      ≡ 0)
    × (charge_done_mv ≤ 4100)
charged_once_example =
    charged_once device oak 4100 (110 * minute) manager still_charging tells
      still_charging-SameCharge

-- The device is silent at two checks, a day after the first one still, and then heard again.
abbrev silence : List Op
silence =
    stale device oak true (90 * minute) (110 * minute)
    ∷ battery device oak (pos 43) (pos 3690) (120 * minute)
    ∷ stale device oak true (100 * minute) (120 * minute)
    ∷ stale device oak true (1530 * minute) (1550 * minute)
    ∷ stale device oak false 0 (1560 * minute)
    ∷ []

silence-told :
    expected (1440 * minute) false 0 (checks device silence)
    ≡ some (offline (90 * minute)) ∷ none ∷ some (offline (1530 * minute)) ∷ some recovered ∷ []
unfolding expected event checks text_eq
silence-told = refl

stale_events_example :
    alerts device silence manager ≡ expected (1440 * minute) false 0 (checks device silence)
unfolding current lookup
stale_events_example = stale_events device silence manager refl
