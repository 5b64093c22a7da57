-- ===== src/Examples/Wake.antt =====
-- The schedule and the sleep of a room on Monday, 1 January 2024.
use re_terminal_eink_signage.Base.{
  ℕ, ◌+◌, ◌-◌, ◌*◌, ◌/◌, ◌%◌, ◌≤◌, ◌<◌, ◌≡◌, refl, true, false, none, some, [], ◌∷◌, arith, ltb,
  ltb→lt, keep_if, text, text_eq,
}
use mathlib.Core.List.{Perm}
use re_terminal_eink_signage.Calendar.{
  Event, Schedule, second, minute, current, next, next_transition_at, transition_buffer,
  find_current, find_next, normalize,
}
use re_terminal_eink_signage.Calendar.Sorting.{Sorted, IsNext, normalize-Sorted, next-IsNext}
use re_terminal_eink_signage.Calendar.Status.{status_at, Before, status-next_transition_at}
use re_terminal_eink_signage.Config.Types.{Room, WakeConfig}
use re_terminal_eink_signage.Config.Wake.{
  Zone, hour, day, unix, wake_mode_for, is_business_hours, seconds_until_next_boundary,
  next_wake_duration, grid_offset_seconds, min_wake_seconds, smart_wake_seconds,
  seconds_until_business_hours_start,
}
use re_terminal_eink_signage.Config.Grid.{seconds_until_next_boundary-on_grid}
use re_terminal_eink_signage.Config.Sleep.{smart_sleep_misses_nothing, business_hours_start_lem}

abbrev utc : Zone
utc = record { wall = λ t. t; instant = λ w. w }

abbrev wake : WakeConfig
wake = record {
  mode = text "smart";
  business_hours_seconds = 600;
  off_hours_seconds = 3600;
  business_start_hour = 8;
  business_end_hour = 18;
  timezone = text "UTC";
  forced_refresh_hour = none;
}

abbrev room : Room
room = record {
  device_id = text "rt-1";
  name = text "Oak";
  room = text "oak@example.com";
  token_sha256 = [];
  location = [];
  label = [];
  wake_mode = none;
  flat_interval_seconds = none;
}

-- 10:00, and a meeting from 10:30 to 11:00.
abbrev monday : ℕ
monday = (62135596800 + 1704067200) * second

abbrev ten : ℕ
ten = monday + 10 * hour

abbrev meeting : Event
meeting = record {
  subject = text "Standup";
  organizer = text "Ada";
  start = ten + 30 * minute;
  finish = ten + 60 * minute;
  is_private = false;
}

abbrev schedule : Schedule
schedule = record { room_name = text "Oak"; events = meeting ∷ []; fetched_at = ten }

smart : text_eq (wake_mode_for wake room) (text "smart") ≡ true
unfolding text_eq wake_mode_for
smart = refl

schedule-Sorted : Sorted schedule.events
schedule-Sorted = ground arith

sleeps :
    ltb (ten + 2 * minute + transition_buffer) (
      ten
      + next_wake_duration wake utc room (current schedule ten) (next schedule ten) ten * second)
    ≡ true
unfolding next_wake_duration wake_mode_for text_eq smart_wake_seconds is_business_hours
    seconds_until_next_boundary current next find_current find_next next_transition_at
sleeps = refl

smart_sleep_misses_nothing_example : status_at schedule (ten + 2 * minute) ≡ status_at schedule ten
smart_sleep_misses_nothing_example =
    smart_sleep_misses_nothing wake utc room schedule ten (ten + 2 * minute) smart schedule-Sorted
      (omega arith) (ltb→lt _ _ sleeps)

business : is_business_hours wake utc ten ≡ true
unfolding is_business_hours
business = refl

-- Seven in the evening of the Sunday before, and a meeting at ten.
abbrev evening : ℕ
evening = monday - 5 * hour

business_hours_start_lem_example :
    (gap : ℕ) × (0 < gap)
    × (gap ≤ day)
    × (utc.wall (evening + gap) % day ≡ 8 * hour)
    × (seconds_until_business_hours_start utc evening 8 ≡ gap / second)
business_hours_start_lem_example =
    business_hours_start_lem utc 0 evening 8 (λ t. omega arith) (λ w. omega arith) (omega arith)
      (omega arith) (omega arith)

seconds_until_next_boundary-on_grid_example :
    let d = seconds_until_next_boundary ten 600 in
    ((k : ℕ) × (unix ten + d ≡ k * 600 + grid_offset_seconds))
    × (0 < d)
    × (d < 600 + min_wake_seconds)
    × (min_wake_seconds < 600 → min_wake_seconds ≤ d)
seconds_until_next_boundary-on_grid_example =
    seconds_until_next_boundary-on_grid ten 600 (omega arith) (omega arith) (omega arith)

before :
    Before (next_transition_at (current schedule ten) (next schedule ten) ten) (ten + 2 * minute)
unfolding next_transition_at current next find_current find_next
before = omega arith

status-next_transition_at_example : status_at schedule (ten + 2 * minute) ≡ status_at schedule ten
status-next_transition_at_example =
    status-next_transition_at schedule ten (ten + 2 * minute) (omega arith) schedule-Sorted before

transition :
    next_transition_at (current schedule ten) (next schedule ten) ten
    ≡ some (ten + 20 * minute + transition_buffer)
unfolding next_transition_at current next find_current find_next
transition = refl

next-IsNext_example : IsNext schedule.events ten (next schedule ten)
next-IsNext_example = next-IsNext schedule ten schedule-Sorted

normalize-Sorted_example :
    Sorted (normalize (text "Oak") (meeting ∷ []) evening ten).events
    × Perm
        (normalize (text "Oak") (meeting ∷ []) evening ten).events
        (keep_if (λ e. ltb evening e.finish) (meeting ∷ []))
normalize-Sorted_example = normalize-Sorted (text "Oak") (meeting ∷ []) evening ten
