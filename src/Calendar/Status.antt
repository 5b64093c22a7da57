-- ===== src/Calendar/Status.antt =====
-- The status of calendar.go over the time to the next announced change.
use re_terminal_eink_signage.Base.{
  ℕ, ◌+◌, ◌≤◌, ◌<◌, ◌≡◌, refl, ◌⊎◌, inl, inr, not, ◌&&◌, Option, none, some, List, [], ◌∷◌, arith,
  ltb, Bool-cases, All,
}
use re_terminal_eink_signage.Calendar.{
  Event, Schedule, find_current, current, find_next, next, transition_buffer, RoomStatus,
  in_meeting, room_status, next_transition_at,
}
use re_terminal_eink_signage.Calendar.Sorting.{Sorted, next-IsNext}

-- What a panel that is rendered at t shows.
abbrev pub status_at : Schedule → ℕ → RoomStatus
status_at s t = room_status (current s t) (next s t) t

-- `t` comes before the change that a transition announces, which it names with the buffer added.
abbrev pub Before : Option ℕ → ℕ → Type 0
Before none t = Unit
Before (some at) t = t + transition_buffer < at

find_current-covers :
    (es : List Event) (t : ℕ) {e : Event}
    → find_current es t ≡ some e
    → (e.start ≤ t) × (t < e.finish)
unfolding find_current
find_current-covers [] t h = cc
find_current-covers (f ∷ es) t {e} h = ground (arith, find_current-covers es t {e = e})

find_current-some :
    (es : List Event) (now t : ℕ) {e : Event}
    → find_current es now ≡ some e
    → now ≤ t
    → t < e.finish
    → (e' : Event) × (find_current es t ≡ some e')
unfolding find_current
find_current-some [] now t h le lt = cc
find_current-some (f ∷ es) now t {e} h le lt =
    elim (Bool-cases (not (ltb t f.start) && ltb t f.finish)) [
      | inl here ↦ (f, rw here)
      | inr gone ↦ rw gone (find_current-some es now t {e = e} (ground arith) le lt)
    ]

-- With no meeting now and none that starts by t there is none at t.
find_current-none :
    (es : List Event) (now t : ℕ)
    → find_current es now ≡ none
    → now ≤ t
    → All (λ f. (f.start < now) ⊎ (t < f.start)) es
    → find_current es t ≡ none
unfolding find_current
find_current-none [] now t h le a = refl
find_current-none (f ∷ es) now t h le a = ground (arith, find_current-none es now t)

find_next-later :
    (es : List Event) (now t : ℕ) {e : Event}
    → find_next es now ≡ some e
    → now ≤ t
    → t ≤ e.start
    → find_next es t ≡ some e
unfolding find_next
find_next-later [] now t h le lt = cc
find_next-later (f ∷ es) now t {e} h le lt = ground (arith, find_next-later es now t {e = e})

find_next-none :
    (es : List Event) (now t : ℕ) → All (λ f. f.start < now) es → now ≤ t → find_next es t ≡ none
unfolding find_next
find_next-none [] now t a le = refl
find_next-none (f ∷ es) now t a le = ground (arith, find_next-none es now t a.1 le)

All-gap :
    (now m t : ℕ) (es : List Event)
    → t < m
    → All (λ f. (f.start < now) ⊎ (m ≤ f.start)) es
    → All (λ f. (f.start < now) ⊎ (t < f.start)) es
All-gap now m t [] h a = tt
All-gap now m t (e ∷ es) h a = (omega arith, All-gap now m t es h a.1)

All-past :
    (now t : ℕ) (es : List Event)
    → All (λ f. f.start < now) es
    → All (λ f. (f.start < now) ⊎ (t < f.start)) es
All-past now t [] a = tt
All-past now t (e ∷ es) a = (inl a.0, All-past now t es a.1)

module _ (s : Schedule) (now t : ℕ) (le : now ≤ t) where
  in_meeting-stays :
      (c : Event) → current s now ≡ some c → t < c.finish → status_at s t ≡ in_meeting
  unfolding current room_status
  in_meeting-stays c e lt =
      let (c', e') = find_current-some s.events now t e le lt in rw (e', room_status)

  free-at :
      (n : Event)
      → Sorted s.events
      → current s now ≡ none
      → next s now ≡ some n
      → t < n.start
      → (current s t ≡ none) × (next s t ≡ some n)
  unfolding current next
  free-at n sorted e f lt =
      let is_next = rw f at (next-IsNext s now sorted) in
      (
        find_current-none s.events now t e le (All-gap now n.start t s.events lt is_next.1),
        find_next-later s.events now t f le (omega arith),
      )

  idle-at :
      Sorted s.events
      → current s now ≡ none
      → next s now ≡ none
      → (current s t ≡ none) × (next s t ≡ none)
  unfolding current next
  idle-at sorted e f =
      let past = rw f at (next-IsNext s now sorted) in
      (
        find_current-none s.events now t e le (All-past now t s.events past),
        find_next-none s.events now t past le,
      )

  status-Before :
      (cur nxt : Option Event)
      → Sorted s.events
      → current s now ≡ cur
      → next s now ≡ nxt
      → Before (next_transition_at cur nxt now) t
      → status_at s t ≡ room_status cur nxt now
  unfolding next_transition_at room_status
  status-Before (some c) nxt sorted e f b = in_meeting-stays c e (ground arith)
  status-Before none (some n) sorted e f b =
      let (e', f') = free-at n sorted e f (ground arith) in ground arith
  status-Before none none sorted e f b = let (e', f') = idle-at sorted e f in ground arith

  -- In a sorted schedule, from now until the change that `NextTransitionAt` announces the panel's
  -- status stays what it is now; if it announces none, the status never changes.
  pub status-next_transition_at :
      Sorted s.events
      → Before (next_transition_at (current s now) (next s now) now) t
      → status_at s t ≡ status_at s now
  status-next_transition_at sorted b = status-Before (current s now) (next s now) sorted refl refl b
