-- ===== src/Telemetry.antt =====
-- backend/internal/telemetry/telemetry.go: the latest report of each device, and the bounded queue
-- of records that one writer drains into a durable sink. The mutexes make each operation below one
-- step. The sink is a parameter of the steps that call it: they are given its answer.
pub mod Accounting
use re_terminal_eink_signage.Base.{
  ◌>>=◌, ◌>>◌, ℕ, ◌+◌, Bool, true, false, Option, none, some, List, [], ◌∷◌, ◌++◌, ltb, ◌==◌,
  if◌then◌else◌, guard, length, Text, lookup, insert,
}
use re_terminal_eink_signage.Base.Int.{ℤ, pos}
use re_terminal_eink_signage.Calendar.{RoomStatus}

-- `Report`, without the two floating-point readings.
pub record Report : Type 0 where
  pub firmware_ver : Text
  pub battery_mv : ℤ
  pub battery_pct : ℤ
  pub heap_free : ℤ
  pub heap_min_free : ℤ
  pub rssi : ℤ
  pub wake_reason : Text
  pub wake_ms : ℤ
  pub rendered : Bool
  pub err_code : Text
  pub boot_count : ℤ

abbrev pub zero_report : Report
zero_report = record {
  firmware_ver = [];
  battery_mv = pos 0;
  battery_pct = pos 0;
  heap_free = pos 0;
  heap_min_free = pos 0;
  rssi = pos 0;
  wake_reason = [];
  wake_ms = pos 0;
  rendered = false;
  err_code = [];
  boot_count = pos 0;
}

-- `state`; a room status of "" is `none`, and time 0 is Go's zero time.
pub record State : Type 0 where
  pub last : Report
  pub last_seen : ℕ
  pub last_rendered : ℕ
  pub room_status : Option RoomStatus
  pub expected_wake : ℕ
  pub reported : Bool

abbrev pub zero_state : State
zero_state = record {
  last = zero_report;
  last_seen = 0;
  last_rendered = 0;
  room_status = none;
  expected_wake = 0;
  reported = false;
}

-- `Record` of sink.go.
pub record SinkRecord : Type 0 where
  pub device_id : Text
  pub report : Report
  pub last_seen : ℕ
  pub last_rendered : ℕ

-- `Store`; `has_sink` is `sink != nil`, and `q` the channel's content, oldest first.
pub record Store : Type 0 where
  pub m : List (Text × State)
  pub has_sink : Bool
  pub q : List SinkRecord
  pub queue_size : ℕ
  pub sink_errs : ℕ
  pub dropped : ℕ
  pub closed : Bool

unfoldable pub new : Store
new = record {
  m = [];
  has_sink = false;
  q = [];
  queue_size = 0;
  sink_errs = 0;
  dropped = 0;
  closed = false;
}

warm : List SinkRecord → List (Text × State) → List (Text × State)
warm [] m = m
warm (rec ∷ recs) m = warm recs (
    insert rec.device_id
      (record {
        last = rec.report;
        last_seen = rec.last_seen;
        last_rendered = rec.last_rendered;
        room_status = none;
        expected_wake = 0;
        reported = true;
      })
      m)

-- `NewWithSink`, given what `sink.LoadLatest` returned; `none` is its error.
unfoldable pub new_with_sink : Option (List SinkRecord) → ℕ → Option Store
unfolding warm
new_with_sink latest queue_size = do
  recs ← latest
  some (record {
    m = warm recs [];
    has_sink = true;
    q = [];
    queue_size = if queue_size == 0 then 256 else queue_size;
    sink_errs = 0;
    dropped = 0;
    closed = false;
  })

-- `st, ok := s.m[deviceID]; if !ok { st = &state{} }`.
abbrev pub state_of : Text → List (Text × State) → State
state_of device_id m = elim (lookup device_id m) [ none ↦ zero_state | some st ↦ st ]

-- The non-blocking send: a full or closed queue drops the record and counts it.
unfoldable pub send : SinkRecord → Store → Store
send rec s =
    if s.closed
    then record s { dropped = s.dropped + 1 }
    else (if ltb (length s.q) s.queue_size
        then record s { q = s.q ++ rec ∷ [] }
        else record s { dropped = s.dropped + 1 })

unfoldable pub ingest : Text → Report → ℕ → Store → Store
unfolding send
ingest device_id r now s =
    let st = state_of device_id s.m in
    let last_rendered = if r.rendered then now else st.last_rendered in
    let s' = record s {
      m =
          insert device_id
            (record {
              last = r;
              last_seen = now;
              last_rendered = last_rendered;
              room_status = st.room_status;
              expected_wake = st.expected_wake;
              reported = true;
            })
            s.m;
    } in
    let rec : SinkRecord = record {
      device_id = device_id;
      report = r;
      last_seen = now;
      last_rendered = last_rendered;
    } in
    if s.has_sink then send rec s' else s'

-- One round of the writer on a queued record, given whether `sink.Append` succeeded: the record that
-- it took, if there was one.
unfoldable pub drain : Bool → Store → Store × Option SinkRecord
drain appended s = elim s.q [
  | [] ↦ (s, none)
  | rec ∷ rest ↦ (
    record s { q = rest; sink_errs = if appended then s.sink_errs else s.sink_errs + 1 },
    some rec,
  )
]

-- `prune`, given whether `sink.Prune` succeeded; a retention of 0 keeps everything.
unfoldable pub prune : ℕ → Bool → Store → Store
prune retention pruned s =
    if retention == 0 then s else (if pruned then s else record s { sink_errs = s.sink_errs + 1 })

-- `Close`, up to the wait for the writer.
unfoldable pub close : Store → Store
close s = if s.has_sink then record s { closed = true } else s

unfoldable pub set_room_status : Text → RoomStatus → Store → Store
set_room_status device_id status s = record s {
  m = insert device_id (record (state_of device_id s.m) { room_status = some status }) s.m;
}

unfoldable pub set_expected_wake : Text → ℕ → Store → Store
set_expected_wake device_id seconds s = if seconds == 0 then s else record s {
  m = insert device_id (record (state_of device_id s.m) { expected_wake = seconds }) s.m;
}

pub record Snapshot : Type 0 where
  pub report : Report
  pub last_seen : ℕ
  pub last_rendered : ℕ
  pub expected_wake : ℕ

unfoldable pub snapshot : Text → Store → Option Snapshot
snapshot device_id s = do
  st ← lookup device_id s.m
  guard st.reported
  some (record {
    report = st.last;
    last_seen = st.last_seen;
    last_rendered = st.last_rendered;
    expected_wake = st.expected_wake;
  })
