-- ===== src/Config/Wake.antt =====
-- The wake schedule of backend/internal/config/config.go: how long a device sleeps. Times count
-- nanoseconds since year 1. The time zone is a parameter: Go's database is not part of the program.
use re_terminal_eink_signage.Base.{
  ℕ, ◌+◌, ◌-◌, ◌*◌, ◌/◌, ◌%◌, ◌^◌, Bool, not, ◌&&◌, Option, none, some, ◌∷◌, ltb, leb, ◌==◌,
  if◌then◌else◌, Text, text, text_eq, is_empty,
}
use re_terminal_eink_signage.Calendar.{Event, second, next_transition_at}
use re_terminal_eink_signage.Config.Types.{Room, WakeConfig}

-- A `time.Location`: the wall clock at an instant (`t.In(loc)`, as nanoseconds since year 1 on that
-- clock), and the instant of a wall clock (`time.Date`).
pub record Zone : Type 0 where
  pub wall : ℕ → ℕ
  pub instant : ℕ → ℕ

abbrev pub hour : ℕ
hour = 3600 * second

abbrev pub day : ℕ
day = 24 * hour

-- `Weekday`: 1 January of year 1 is a Monday, and Sunday is 0.
abbrev pub weekday : ℕ → ℕ
weekday wall = (wall / day + 1) % 7

abbrev pub hour_of : ℕ → ℕ
hour_of wall = wall % day / hour

-- `t.Unix()` of a time since 1970.
abbrev pub unix : ℕ → ℕ
unix t = t / second - 62135596800

unfoldable pub wake_mode_for : WakeConfig → Room → Text
wake_mode_for wake room = elim room.wake_mode [
  | some (b ∷ mode) ↦ b ∷ mode
  | _ ↦ (if is_empty wake.mode then text "flat" else wake.mode)
]

unfoldable pub is_business_hours : WakeConfig → Zone → ℕ → Bool
is_business_hours wake loc now =
    let local = loc.wall now in
    not (weekday local == 6)
    && not (weekday local == 0)
    && leb wake.business_start_hour (hour_of local)
    && ltb (hour_of local) wake.business_end_hour

abbrev pub grid_offset_seconds : ℕ
grid_offset_seconds = 300

abbrev pub min_wake_seconds : ℕ
min_wake_seconds = 60

abbrev pub max_wake_seconds : ℕ
max_wake_seconds = 6 * 3600

-- The interval is a uint32, and so is the result.
unfoldable pub seconds_until_next_boundary : ℕ → ℕ → ℕ
seconds_until_next_boundary now interval_seconds =
    let epoch = unix now - grid_offset_seconds in
    let next = (epoch / interval_seconds + 1) * interval_seconds in
    let d = next + grid_offset_seconds - unix now in
    let late =
      if ltb d min_wake_seconds && ltb min_wake_seconds interval_seconds
      then d + interval_seconds
      else d in
    if interval_seconds == 0 then 0 else late % 2 ^ 32

-- The wall clock shows `businessStartHour` on the day of `now`, or the day after.
unfoldable pub seconds_until_business_hours_start : Zone → ℕ → ℕ → ℕ
seconds_until_business_hours_start loc now business_start_hour =
    let today = loc.instant (loc.wall now / day * day + business_start_hour * hour) in
    let next = if leb today now then loc.instant (loc.wall today + day) else today in
    (next - now) / second % 2 ^ 32

unfoldable pub flat_wake_seconds : WakeConfig → Zone → Room → ℕ → ℕ
flat_wake_seconds wake loc room now =
    let interval =
      if is_business_hours wake loc now
      then wake.business_hours_seconds
      else wake.off_hours_seconds in
    elim room.flat_interval_seconds [
      | none ↦ seconds_until_next_boundary now interval
      | some own ↦ seconds_until_next_boundary now (if ltb 0 own then own else interval)
    ]

-- A transition that is not later than `now` gives 0, as the truncated difference does.
unfoldable pub smart_wake_seconds : WakeConfig → Zone → Option Event → Option Event → ℕ → ℕ
smart_wake_seconds wake loc cur next now =
    let business = is_business_hours wake loc now in
    elim (next_transition_at cur next now) [
      | none ↦
          if business
          then seconds_until_next_boundary now wake.business_hours_seconds
          else seconds_until_business_hours_start loc now wake.business_start_hour
      | some transition_at ↦
          let secs = (transition_at - now) / second % 2 ^ 32 in
          if business && ltb wake.business_hours_seconds secs
          then wake.business_hours_seconds
          else secs
    ]

-- `NextWakeDuration`.
unfoldable pub next_wake_duration : WakeConfig → Zone → Room → Option Event → Option Event → ℕ → ℕ
next_wake_duration wake loc room cur next now =
    if text_eq (wake_mode_for wake room) (text "smart")
    then smart_wake_seconds wake loc cur next now
    else flat_wake_seconds wake loc room now

unfoldable pub clamp_wake_seconds : ℕ → ℕ
clamp_wake_seconds s =
    if ltb s min_wake_seconds
    then min_wake_seconds
    else (if ltb max_wake_seconds s then max_wake_seconds else s)
