-- ===== src/Config/Sleep.antt =====
-- What a device that sleeps as config.go tells it can miss.
use re_terminal_eink_signage.Base.{
  ℕ, ◌+◌, ◌-◌, ◌*◌, ◌/◌, ◌%◌, ◌^◌, ◌≤◌, ◌<◌, ◌≡◌, refl, true, Option, none, some, arith, leb,
  if◌then◌else◌, text, text_eq,
}
use re_terminal_eink_signage.Calendar.{
  Event, Schedule, current, next, second, transition_buffer, next_transition_at,
}
use re_terminal_eink_signage.Calendar.Sorting.{Sorted}
use re_terminal_eink_signage.Calendar.Status.{status_at, Before, status-next_transition_at}
use re_terminal_eink_signage.Config.Types.{Room, WakeConfig}
use re_terminal_eink_signage.Config.Grid.{seconds_until_next_boundary-on_grid}
use re_terminal_eink_signage.Config.Wake.{
  Zone, grid_offset_seconds, min_wake_seconds, unix, hour, day, seconds_until_business_hours_start,
  wake_mode_for, is_business_hours, smart_wake_seconds, next_wake_duration,
}

-- A sleep towards a known transition is not longer than the time that is left.
smart_wake-le :
    (wake : WakeConfig) (loc : Zone) (cur nxt : Option Event) (now at : ℕ)
    → next_transition_at cur nxt now ≡ some at
    → smart_wake_seconds wake loc cur nxt now * second ≤ at - now
unfolding smart_wake_seconds
smart_wake-le wake loc cur nxt now at e = ground arith

Before-of-sleep :
    (o : Option ℕ) (now t secs : ℕ)
    → ((at : ℕ) → o ≡ some at → secs * second ≤ at - now)
    → now ≤ t
    → t + transition_buffer < now + secs * second
    → Before o t
Before-of-sleep none now t secs h le lt = tt
Before-of-sleep (some at) now t secs h le lt = omega (arith, h at refl)

-- A room in smart mode, with a sorted schedule: from the request until 30 seconds before the device
-- is to wake, the status that a panel should show stays what it is at the request. The sleep
-- is the one that the device is told.
pub smart_sleep_misses_nothing :
    (wake : WakeConfig) (loc : Zone) (room : Room) (s : Schedule) (now t : ℕ)
    → text_eq (wake_mode_for wake room) (text "smart") ≡ true
    → Sorted s.events
    → now ≤ t
    → t + transition_buffer
      < now + next_wake_duration wake loc room (current s now) (next s now) now * second
    → status_at s t ≡ status_at s now
unfolding next_wake_duration
smart_sleep_misses_nothing wake loc room s now t smart sorted le lt =
    status-next_transition_at s now t le sorted (
      Before-of-sleep _ now t _ (smart_wake-le wake loc (current s now) (next s now) now) le
        (rw smart at lt))

-- A room in smart mode, in business hours: the device is never told to sleep for the business-hours
-- interval and a minute more, whatever the calendar holds. (The interval is not 0, its double is a
-- uint32, and the time is after 00:05 of 1 January 1970.)
smart_sleep_capped :
    (wake : WakeConfig) (loc : Zone) (room : Room) (cur nxt : Option Event) (now : ℕ)
    → text_eq (wake_mode_for wake room) (text "smart") ≡ true
    → is_business_hours wake loc now ≡ true
    → 0 < wake.business_hours_seconds
    → wake.business_hours_seconds + wake.business_hours_seconds < 2 ^ 32
    → grid_offset_seconds ≤ unix now
    → next_wake_duration wake loc room cur nxt now < wake.business_hours_seconds + min_wake_seconds
unfolding next_wake_duration smart_wake_seconds
smart_sleep_capped wake loc room cur nxt now smart business pos fits late =
    let (on_grid, some_time, bounded, rested) =
      seconds_until_next_boundary-on_grid now wake.business_hours_seconds pos fits late in
    ground (arith, smart, business, bounded)

-- In a zone whose clock is ahead of UTC by a constant of less than a day, possibly 0, after the first
-- day of 1970 and for an hour below 24: the opening that a device sleeps to with nothing on the
-- calendar shows the configured hour, is later than now by at most a day, and the sleep is the whole
-- seconds until then.
pub business_hours_start_lem :
    (loc : Zone) (east now start_hour : ℕ)
    → ((t : ℕ) → loc.wall t ≡ t + east)
    → ((w : ℕ) → loc.instant w ≡ w - east)
    → start_hour < 24
    → day ≤ now
    → east < day
    → (gap : ℕ) × (0 < gap)
      × (gap ≤ day)
      × (loc.wall (now + gap) % day ≡ start_hour * hour)
      × (seconds_until_business_hours_start loc now start_hour ≡ gap / second)
unfolding seconds_until_business_hours_start
business_hours_start_lem loc east now start_hour wall instant valid late ahead =
    let (after, soon, shows) = facts in (gap, after, soon, rw (wall (now + gap)) shows, taken)
  where
    opening : ℕ
    opening = (now + east) / day * day + start_hour * hour

    gap : ℕ
    gap = if leb (opening - east) now then opening + day - east - now else opening - east - now

    facts : (0 < gap) × (gap ≤ day) × ((now + gap + east) % day ≡ start_hour * hour)
    facts = ground arith

    taken : seconds_until_business_hours_start loc now start_hour ≡ gap / second
    taken = simp (wall, instant) (ground (arith, facts))
