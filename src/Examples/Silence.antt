-- ===== src/Examples/Silence.antt =====
-- A check of the fleet an hour after its door was last heard.
use re_terminal_eink_signage.Base.{
  get_elem?, false, ◌*◌, ◌≡◌, refl, true, none, some, [], ◌∷◌, text, text_eq, lookup,
}
use re_terminal_eink_signage.Base.Int.{pos}
use re_terminal_eink_signage.Calendar.{minute}
use re_terminal_eink_signage.Notify.{Manager, dev_of}
use re_terminal_eink_signage.Telemetry.{State, zero_state, Store, snapshot}
use re_terminal_eink_signage.Status.{Device, stale_threshold, status_of, device_of, build}
use re_terminal_eink_signage.Server.Stale.{check_stale}
use re_terminal_eink_signage.Server.Stale.Shown.{check_stale-shown}
use re_terminal_eink_signage.Examples.Fleet.{fleet, door}

-- The door was told to sleep for 900 seconds; the wall has never reported.
abbrev heard : State
heard = record zero_state { reported = true; last_seen = 1 * minute; expected_wake = 900 }

abbrev reports : Store
reports = record {
  m = (text "e1001", heard) ∷ [];
  has_sink = false;
  q = [];
  queue_size = 0;
  sink_errs = 0;
  dropped = 0;
  closed = false;
}

abbrev quiet : Manager
quiet = record {
  low_pct = pos 15;
  clear_pct = pos 25;
  renotify = 1440 * minute;
  settings = none;
  state = [];
  stale = [];
  locate = none;
}

abbrev row : Device
row = device_of fleet (61 * minute) door (snapshot (text "e1001") reports)

row-shown : get_elem? (build fleet reports (61 * minute)) 0 ≡ some row
unfolding build
row-shown = refl

check_stale-shown_example :
    (dev_of (text "e1001") (check_stale fleet reports (61 * minute) quiet).1.stale).alerting ≡ true
unfolding device_of status_of stale_threshold snapshot lookup text_eq
check_stale-shown_example = check_stale-shown fleet reports (61 * minute) quiet 0 row row-shown
