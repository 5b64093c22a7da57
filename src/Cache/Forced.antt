-- ===== src/Cache/Forced.antt =====
-- The once-daily forced repaint of cache.go between two writes of the poller.
use re_terminal_eink_signage.Base.{
  ℕ, zero, ◌/◌, ◌≡◌, refl, sym, ap, ◌∙◌, inl, inr, true, false, Option, none, some, List, [], ◌∷◌,
  arith, if◌then◌else◌, ==_iff, Bool-cases, Text, text_eq, text_eq→eq, text_eq_refl, lookup, insert,
  lookup-insert,
}
use re_terminal_eink_signage.Base.Int.{ℤ}
use re_terminal_eink_signage.Config.Wake.{Zone, day}
use re_terminal_eink_signage.Cache.{
  Entry, Store, entry_of, zero_entry, set_error, should_force_full_refresh,
}

-- The local day of an instant.
abbrev pub local_day : Zone → ℕ → ℕ
local_day loc now = loc.wall now / day

-- What may happen to the store while no frame is written: a failed poll, and a request.
pub data Op : Type 0 where
  fails : Text → Text → Op
  asks : Text → ℕ → Op

pub step : Zone → ℤ → Op → Store → Store
step loc h (fails d e) s = set_error d e s
step loc h (asks d now) s = (should_force_full_refresh d now h loc s).1

unfoldable pub run : Zone → ℤ → List Op → Store → Store
run loc h [] s = s
run loc h (o ∷ os) s = run loc h os (step loc h o s)

-- Every request of a history is on a given local day.
unfoldable pub OnDay : Zone → ℕ → List Op → Type 0
OnDay loc today [] = zero ≡ zero
OnDay loc today (fails d e ∷ os) = OnDay loc today os
OnDay loc today (asks d now ∷ os) = (local_day loc now ≡ today) × OnDay loc today os

-- `LastForcedRefreshDay` of a device.
abbrev pub day_in : Option Entry → Option ℕ
day_in none = none
day_in (some e) = e.last_forced_refresh_day

unfoldable pub mark : Text → Store → Option ℕ
mark d s = day_in (lookup d s)

pub mark-insert :
    (d d' : Text) (e : Entry) (s : Store)
    → mark d (insert d' e s) ≡ (if text_eq d' d then e.last_forced_refresh_day else mark d s)
unfolding mark
mark-insert d d' e s = ap day_in (lookup-insert d' d e s) ∙ ground arith

mark_eq : (d d' : Text) (s : Store) → text_eq d' d ≡ true → mark d' s ≡ mark d s
mark_eq d d' s h = rw (text_eq→eq d' d h) refl

pub unfold_mark : (d : Text) (s : Store) → (entry_of d s).last_forced_refresh_day ≡ mark d s
unfolding mark
unfold_mark d s = elim (lookup d s) as (λ o. (entry_or o).last_forced_refresh_day ≡ day_in o) [
  | none ↦ refl
  | some e ↦ refl
]
  where
    entry_or : Option Entry → Entry
    entry_or none = zero_entry
    entry_or (some e) = e

fails-mark : (d d' e : Text) (s : Store) → mark d (set_error d' e s) ≡ mark d s
unfolding set_error
fails-mark d d' e s = rw mark-insert (elim (Bool-cases (text_eq d' d)) [
  | inl h ↦ rw h (unfold_mark d' s ∙ mark_eq d d' s h)
  | inr h ↦ rw h refl
])

asks-mark :
    (loc : Zone) (f : ℤ) (d d' : Text) (now : ℕ) (s : Store)
    → mark d s ≡ some (local_day loc now)
    → mark d (should_force_full_refresh d' now f loc s).1 ≡ some (local_day loc now)
unfolding should_force_full_refresh
asks-mark loc f d d' now s h = ground (
  arith,
  mark-insert d d' (record (entry_of d' s) { last_forced_refresh_day = some (local_day loc now) })
      s,
  h,
)

run-mark :
    (loc : Zone) (f : ℤ) (d : Text) (today : ℕ) (os : List Op) (s : Store)
    → OnDay loc today os
    → mark d s ≡ some today
    → mark d (run loc f os s) ≡ some today
unfolding run step OnDay
run-mark loc f d today [] s on h = h
run-mark loc f d today (fails d' e ∷ os) s on h =
    run-mark loc f d today os (step loc f (fails d' e) s) on (fails-mark d d' e s ∙ h)
run-mark loc f d today (asks d' now ∷ os) s on h =
    run-mark loc f d today os (step loc f (asks d' now) s) on.1
      (asks-mark loc f d d' now s (h ∙ ap some (sym on.0)) ∙ ap some on.0)

forced-mark :
    (loc : Zone) (f : ℤ) (d : Text) (now : ℕ) (s : Store)
    → (should_force_full_refresh d now f loc s).0 ≡ true
    → mark d (should_force_full_refresh d now f loc s).1 ≡ some (local_day loc now)
unfolding should_force_full_refresh
forced-mark loc f d now s h = ground (
  arith,
  mark-insert d d (record (entry_of d s) { last_forced_refresh_day = some (local_day loc now) }) s,
  text_eq_refl d,
)

marked-none :
    (loc : Zone) (f : ℤ) (d : Text) (now : ℕ) (s : Store)
    → mark d s ≡ some (local_day loc now)
    → should_force_full_refresh d now f loc s ≡ (false, s)
unfolding should_force_full_refresh
marked-none loc f d now s h =
    ground (arith, unfold_mark d s, h, ==_iff (local_day loc now) (local_day loc now))

-- Once a device has been forced to repaint, no later request of it on the same local day is, and
-- none changes the store, after any failed polls and any requests of any devices on that day,
-- provided that the poller writes no frame in between.
pub forced-once :
    (loc : Zone) (f : ℤ) (d : Text) (now later : ℕ) (os : List Op) (s : Store)
    → (should_force_full_refresh d now f loc s).0 ≡ true
    → OnDay loc (local_day loc now) os
    → local_day loc later ≡ local_day loc now
    → should_force_full_refresh d later f loc
        (run loc f os (should_force_full_refresh d now f loc s).1)
      ≡ (false, run loc f os (should_force_full_refresh d now f loc s).1)
forced-once loc f d now later os s forced on same =
    marked-none loc f d later _
      (run-mark loc f d _ os _ on (forced-mark loc f d now s forced) ∙ ap some (sym same))
