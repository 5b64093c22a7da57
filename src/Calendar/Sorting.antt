-- ===== src/Calendar/Sorting.antt =====
-- What `normalize` of calendar.go leaves, and what `Next` finds in it.
use mathlib.Core.List.{Perm}
use mathlib.Core.List.Perm
use re_terminal_eink_signage.Base.{
  ℕ, ◌≤◌, ◌<◌, ◌⊎◌, inl, inr, Option, none, some, List, [], ◌∷◌, arith, ltb, ltb→lt, Bool-cases,
  keep_if, All, Text,
}
use re_terminal_eink_signage.Calendar.{
  Event, Schedule, find_next, next, insert_event, sort_events, normalize,
}

abbrev pub Sorted : List Event → Type 0
Sorted [] = Unit
Sorted (e ∷ es) = All (λ f. e.start ≤ f.start) es × Sorted es

All-mono :
    (m n : ℕ) (es : List Event) → m ≤ n → All (λ f. n ≤ f.start) es → All (λ f. m ≤ f.start) es
All-mono m n [] h a = tt
All-mono m n (e ∷ es) h a = (omega arith, All-mono m n es h a.1)

insert_event-All :
    (m : ℕ) (e : Event) (es : List Event)
    → m ≤ e.start
    → All (λ f. m ≤ f.start) es
    → All (λ f. m ≤ f.start) (insert_event e es)
unfolding insert_event
insert_event-All m e [] h a = (h, tt)
insert_event-All m e (f ∷ fs) h a = ground (arith, insert_event-All m e fs h a.1)

insert_event-Sorted : (e : Event) (es : List Event) → Sorted es → Sorted (insert_event e es)
unfolding insert_event
insert_event-Sorted e [] s = (tt, tt)
insert_event-Sorted e (f ∷ fs) s = elim (Bool-cases (ltb f.start e.start)) [
  | inl later ↦
      rw (later, insert_event)
        (insert_event-All f.start e fs (ground arith) s.0, insert_event-Sorted e fs s.1)
  | inr earlier ↦
      rw (earlier, insert_event) ((ground arith, All-mono e.start f.start fs (ground arith) s.0), s)
]

insert_event-perm : (e : Event) (es : List Event) → Perm (insert_event e es) (e ∷ es)
unfolding insert_event
insert_event-perm e [] = Perm.refl (e ∷ [])
insert_event-perm e (f ∷ fs) = elim (Bool-cases (ltb f.start e.start)) [
  | inl later ↦
      rw (later, insert_event)
        (Perm.trans (Perm.cons f (insert_event-perm e fs)) (Perm.swap e f fs))
  | inr earlier ↦ rw (earlier, insert_event) (Perm.refl (e ∷ f ∷ fs))
]

sort_events-Sorted : (es : List Event) → Sorted (sort_events es)
unfolding sort_events
sort_events-Sorted [] = tt
sort_events-Sorted (e ∷ es) = insert_event-Sorted e (sort_events es) (sort_events-Sorted es)

sort_events-perm : (es : List Event) → Perm (sort_events es) es
unfolding sort_events
sort_events-perm [] = Perm.refl []
sort_events-perm (e ∷ es) =
    Perm.trans (insert_event-perm e (sort_events es)) (Perm.cons e (sort_events-perm es))

-- A normalized schedule is sorted by start, and holds the events that end after `from`, each as
-- often as it was given.
pub normalize-Sorted :
    (name : Text) (events : List Event) (from fetched_at : ℕ)
    → Sorted (normalize name events from fetched_at).events
      × Perm
          (normalize name events from fetched_at).events
          (keep_if (λ e. ltb from e.finish) events)
unfolding normalize
normalize-Sorted name events from fetched_at = (
  sort_events-Sorted (keep_if (λ e. ltb from e.finish) events),
  sort_events-perm (keep_if (λ e. ltb from e.finish) events),
)

-- What `Next` returns.
abbrev pub IsNext : List Event → ℕ → Option Event → Type 0
IsNext es t none = All (λ f. f.start < t) es
IsNext es t (some e) = (t ≤ e.start) × All (λ f. (f.start < t) ⊎ (e.start ≤ f.start)) es

All-right :
    (t m : ℕ) (es : List Event)
    → All (λ f. m ≤ f.start) es
    → All (λ f. (f.start < t) ⊎ (m ≤ f.start)) es
All-right t m [] a = tt
All-right t m (e ∷ es) a = (inr a.0, All-right t m es a.1)

IsNext-cons :
    (e : Event) (es : List Event) (t : ℕ) (o : Option Event)
    → e.start < t
    → IsNext es t o
    → IsNext (e ∷ es) t o
IsNext-cons e es t none h n = (h, n)
IsNext-cons e es t (some f) h n = (n.0, (inl h, n.1))

find_next-IsNext : (es : List Event) (t : ℕ) → Sorted es → IsNext es t (find_next es t)
unfolding find_next
find_next-IsNext [] t s = tt
find_next-IsNext (e ∷ es) t s = elim (Bool-cases (ltb e.start t)) [
  | inl before ↦
      rw (before, find_next)
        (IsNext-cons e es t (find_next es t) (ltb→lt _ _ before) (find_next-IsNext es t s.1))
  | inr after ↦
      rw (after, find_next) (ground arith, (inr (omega arith), All-right t e.start es s.0))
]

-- In a schedule sorted by start, `Next` gives an event that starts at t or later, and every other
-- such event starts no earlier; it gives none only if every event has started before t.
pub next-IsNext : (s : Schedule) (t : ℕ) → Sorted s.events → IsNext s.events t (next s t)
unfolding next
next-IsNext s t sorted = find_next-IsNext s.events t sorted
