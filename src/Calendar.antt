-- ===== src/Calendar.antt =====
-- backend/internal/calendar/calendar.go: a room's schedule and when its displayed status changes.
-- A `time.Time` is the number of nanoseconds since year 1, which is Go's zero time, and a
-- `*Event` is an Option.
pub mod Sorting
pub mod Status
use re_terminal_eink_signage.Base.{
  ℕ, ◌+◌, ◌-◌, ◌*◌, Bool, not, ◌&&◌, Option, none, some, List, [], ◌∷◌, ltb, leb, if◌then◌else◌,
  is_some, keep_if, Text,
}

pub record Event : Type 0 where
  pub subject : Text
  pub organizer : Text
  pub start : ℕ
  pub finish : ℕ
  pub is_private : Bool

pub record Schedule : Type 0 where
  pub room_name : Text
  pub events : List Event
  pub fetched_at : ℕ

abbrev pub second : ℕ
second = 1000000000

abbrev pub minute : ℕ
minute = 60 * second

-- The loops of `Current` and `Next`.
unfoldable pub find_current : List Event → ℕ → Option Event
find_current [] t = none
find_current (e ∷ es) t =
    if not (ltb t e.start) && ltb t e.finish then some e else find_current es t

unfoldable pub find_next : List Event → ℕ → Option Event
find_next [] t = none
find_next (e ∷ es) t = if not (ltb e.start t) then some e else find_next es t

unfoldable pub current : Schedule → ℕ → Option Event
unfolding find_current
current s t = find_current s.events t

unfoldable pub next : Schedule → ℕ → Option Event
unfolding find_next
next s t = find_next s.events t

abbrev pub starting_soon_window : ℕ
starting_soon_window = 10 * minute

abbrev pub back_to_back_window : ℕ
back_to_back_window = 5 * minute

abbrev pub transition_buffer : ℕ
transition_buffer = 30 * second

pub data RoomStatus : Type 0 where
  in_meeting starting_soon available : RoomStatus

-- `d <= window`, of the duration d from `now` to `start`, is `start <= now + window`.
unfoldable pub room_status : Option Event → Option Event → ℕ → RoomStatus
room_status (some cur) next now = in_meeting
room_status none (some next) now =
    if leb next.start (now + starting_soon_window) then starting_soon else available
room_status none none now = available

pub back_to_back : Option Event → Option Event → Option Event
back_to_back none next = none
back_to_back (some cur) none = none
back_to_back (some cur) (some next) =
    if leb next.start (cur.finish + back_to_back_window) then some next else none

-- A time less than ten minutes into year 1 is not moved before it.
unfoldable pub next_transition_at : Option Event → Option Event → ℕ → Option ℕ
unfolding back_to_back
next_transition_at (some cur) next now =
    let reveal_at = cur.finish - back_to_back_window in
    if is_some (back_to_back (some cur) next) && ltb now reveal_at
    then some (reveal_at + transition_buffer)
    else some (cur.finish + transition_buffer)
next_transition_at none (some next) now =
    let soon_at = next.start - starting_soon_window in
    if ltb now soon_at
    then some (soon_at + transition_buffer)
    else some (next.start + transition_buffer)
next_transition_at none none now = none

-- `sort.Slice` by the start. Go sorts up to 12 elements by insertion, as here; above that it may
-- order events of one start otherwise.
unfoldable pub insert_event : Event → List Event → List Event
insert_event e [] = e ∷ []
insert_event e (f ∷ fs) = if ltb f.start e.start then f ∷ insert_event e fs else e ∷ f ∷ fs

unfoldable pub sort_events : List Event → List Event
unfolding insert_event
sort_events [] = []
sort_events (e ∷ es) = insert_event e (sort_events es)

unfoldable pub normalize : Text → List Event → ℕ → ℕ → Schedule
unfolding sort_events
normalize name events from fetched_at = record {
  room_name = name;
  events = sort_events (keep_if (λ e. ltb from e.finish) events);
  fetched_at = fetched_at;
}
