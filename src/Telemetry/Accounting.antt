-- ===== src/Telemetry/Accounting.antt =====
-- What becomes of each report on its way through the queue of telemetry.go to the sink.
use re_terminal_eink_signage.Base.{
  ℕ, zero, suc, false, ◌+◌, ◌≡◌, refl, Bool, true, List, [], ◌∷◌, arith, length, length-append,
  Text,
}
use re_terminal_eink_signage.Calendar.{RoomStatus}
use re_terminal_eink_signage.Telemetry.{
  Report, Store, SinkRecord, send, ingest, drain, prune, close, set_room_status, set_expected_wake,
}

-- What the rest of the broker, the writer and a shutdown may do, in any order.
pub data Op : Type 0 where
  ingests : Text → Report → ℕ → Op
  drains : Bool → Op
  prunes : ℕ → Bool → Op
  closes : Op
  sets_status : Text → RoomStatus → Op
  sets_wake : Text → ℕ → Op

-- The store, and the records that the writer has taken, oldest first.
abbrev pub step : Op → Store → Store
step (ingests d r now) s = ingest d r now s
step (drains ok) s = (drain ok s).0
step (prunes n ok) s = prune n ok s
step closes s = close s
step (sets_status d st) s = set_room_status d st s
step (sets_wake d w) s = set_expected_wake d w s

unfoldable pub run : List Op → Store → Store
run [] s = s
run (o ∷ os) s = run os (step o s)

-- How many reports a history has, and how many records the writer took.
unfoldable pub reports : List Op → ℕ
reports [] = 0
reports (ingests d r now ∷ os) = suc (reports os)
reports (_ ∷ os) = reports os

-- How many records the writer took and the sink stored, how many it took and the sink refused, and how
-- often the sink failed to prune.
unfoldable pub stored : List Op → Store → ℕ
stored [] s = 0
stored (o ∷ os) s = one o s.q + stored os (step o s)
  where
    one : Op → List SinkRecord → ℕ
    one (drains true) (rec ∷ rest) = 1
    one _ _ = 0

unfoldable pub refused : List Op → Store → ℕ
refused [] s = 0
refused (o ∷ os) s = one o s.q + refused os (step o s)
  where
    one : Op → List SinkRecord → ℕ
    one (drains false) (rec ∷ rest) = 1
    one _ _ = 0

unfoldable pub unpruned : List Op → ℕ
unpruned [] = 0
unpruned (prunes (suc n) false ∷ os) = suc (unpruned os)
unpruned (_ ∷ os) = unpruned os

send-count :
    (rec : SinkRecord) (s : Store)
    → length (send rec s).q + (send rec s).dropped ≡ length s.q + s.dropped + 1
unfolding send
send-count rec s = ground (arith, length-append s.q (rec ∷ []))

ingest-count :
    (d : Text) (r : Report) (now : ℕ) (s : Store)
    → s.has_sink ≡ true
    → length (ingest d r now s).q + (ingest d r now s).dropped ≡ length s.q + s.dropped + 1
unfolding ingest
ingest-count d r now s h = rw h (send-count _ _)

send-sink : (rec : SinkRecord) (s : Store) → (send rec s).has_sink ≡ s.has_sink
unfolding send
send-sink rec s = ground arith

ingest-sink :
    (d : Text) (r : Report) (now : ℕ) (s : Store)
    → s.has_sink ≡ true
    → (ingest d r now s).has_sink ≡ true
unfolding ingest send
ingest-sink d r now s h = ground arith

step-sink : (o : Op) (s : Store) → s.has_sink ≡ true → (step o s).has_sink ≡ true
unfolding drain prune close set_room_status set_expected_wake
step-sink (ingests d r now) s h = ingest-sink d r now s h
step-sink (drains ok) s h = ground arith
step-sink (prunes n ok) s h = ground arith
step-sink closes s h = ground arith
step-sink (sets_status d st) s h = h
step-sink (sets_wake d w) s h = ground arith

step-count :
    (o : Op) (s : Store)
    → s.has_sink ≡ true
    → reports (o ∷ []) + (length s.q + s.dropped)
      ≡ stored (o ∷ []) s + refused (o ∷ []) s + (length (step o s).q + (step o s).dropped)
unfolding drain prune close set_room_status set_expected_wake stored refused reports
step-count (ingests d r now) s h = omega (arith, ingest-count d r now s h)
step-count (drains true) s h = ground arith
step-count (drains false) s h = ground arith
step-count (prunes n ok) s h = ground arith
step-count closes s h = ground arith
step-count (sets_status d st) s h = refl
step-count (sets_wake d w) s h = ground arith

step-errors :
    (o : Op) (s : Store)
    → (step o s).sink_errs ≡ s.sink_errs + refused (o ∷ []) s + unpruned (o ∷ [])
unfolding ingest send drain prune close set_room_status set_expected_wake refused unpruned
step-errors (ingests d r now) s = ground arith
step-errors (drains true) s = ground arith
step-errors (drains false) s = ground arith
step-errors (prunes zero ok) s = ground arith
step-errors (prunes (suc n) true) s = ground arith
step-errors (prunes (suc n) false) s = ground arith
step-errors closes s = ground arith
step-errors (sets_status d st) s = ground arith
step-errors (sets_wake d w) s = ground arith

reports_cons : (o : Op) (os : List Op) → reports (o ∷ os) ≡ reports (o ∷ []) + reports os
unfolding reports
reports_cons (ingests d r now) os = ground arith
reports_cons (drains ok) os = ground arith
reports_cons (prunes n ok) os = ground arith
reports_cons closes os = ground arith
reports_cons (sets_status d st) os = ground arith
reports_cons (sets_wake d w) os = ground arith

unpruned_cons : (o : Op) (os : List Op) → unpruned (o ∷ os) ≡ unpruned (o ∷ []) + unpruned os
unfolding unpruned
unpruned_cons (ingests d r now) os = ground arith
unpruned_cons (drains ok) os = ground arith
unpruned_cons (prunes zero ok) os = ground arith
unpruned_cons (prunes (suc n) true) os = ground arith
unpruned_cons (prunes (suc n) false) os = ground arith
unpruned_cons closes os = ground arith
unpruned_cons (sets_status d st) os = ground arith
unpruned_cons (sets_wake d w) os = ground arith

-- Nothing is lost unseen, in any history of a store with a sink. By number, the reports, with what was
-- queued or counted as dropped before, are the records that the sink stored, those that it refused,
-- those that are still queued, and those that are counted as dropped. And the count of the sink's
-- errors grows by just the records that it refused and its failures to prune.
pub run-accounts :
    (os : List Op) (s : Store)
    → s.has_sink ≡ true
    → (reports os + (length s.q + s.dropped)
        ≡ stored os s + refused os s + (length (run os s).q + (run os s).dropped))
      × ((run os s).sink_errs ≡ s.sink_errs + refused os s + unpruned os)
unfolding run stored refused reports unpruned
run-accounts [] s h = (refl, omega arith)
run-accounts (o ∷ os) s h =
    let (kept, errors) = run-accounts os (step o s) (step-sink o s h) in
    (
      omega (arith, step-count o s h, kept, reports_cons o os),
      omega (arith, step-errors o s, errors, unpruned_cons o os),
    )
