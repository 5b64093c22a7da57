-- ===== src/Auth/Sessions/Persistence.antt =====
-- The session file of session.go, and the store that a restart makes from it.
use re_terminal_eink_signage.Base.{
  ℕ, ◌<◌, ◌≡◌, refl, ap, ◌⊎◌, inl, inr, Bool, true, false, not, Option, none, some, List, [], ◌∷◌,
  arith, ltb, Bool-cases, Option-cases, Text, text_eq, text_eq→eq, is_empty, lookup, insert,
  lookup-insert,
}
use re_terminal_eink_signage.Auth.Sessions.{
  SessionFlags, SessionEntry, SessionFile, missing, sessions, Store, new_session_store, persisted,
  expired_at, save_locked, load, persist, create, revoke, check, revoke_by_username,
}
use re_terminal_eink_signage.Auth.Sessions.Unique.{
  Unique, kept, delete_if-Unique, delete-Unique, insert-Unique,
}

or_else : Option SessionEntry → Option SessionEntry → Option SessionEntry
or_else none o = o
or_else (some e) o = some e

lookup-load :
    (now : ℕ) (j : Text) (l m : List (Text × SessionEntry))
    → is_empty j ≡ false
    → Unique l
    → lookup j (load now (persisted l) m)
      ≡ or_else (kept (λ e. not (ltb now e.expires)) (lookup j l)) (lookup j m)
unfolding load persisted lookup or_else kept Unique
lookup-load now j [] m n u = refl
lookup-load now j ((k, e) ∷ l) m n u = ground (
  arith,
  n,
  u.0,
  lookup-load now j l m n u.1,
  lookup-load now j l (insert k e m) n u.1,
  lookup-insert k j e m,
  λ (h : text_eq k j ≡ true). ap (λ i. lookup i l) (text_eq→eq k j h),
  λ (h : text_eq k j ≡ true). ap is_empty (text_eq→eq k j h),
)

-- What may happen to a store after its start: a login, a logout, a reset account, a request.
pub data Op : Type 0 where
  creates : Text → Text → Text → SessionFlags → ℕ → Op
  revokes : Text → ℕ → Op
  revokes_user : Text → ℕ → Op
  checks : Text → ℕ → Op

module _ (key : Text → Text) where
  -- Every write of the file succeeds.
  abbrev pub step : Op → Store → Store
  step (creates token role username flags now) s = create key token role username flags now true s
  step (revokes token now) s = revoke key token now true s
  step (revokes_user username now) s = revoke_by_username username now true s
  step (checks token now) s = (check key token now true s).1

  unfoldable pub run : List Op → Store → Store
  run [] s = s
  run (o ∷ os) s = run os (step o s)

-- The file has the sessions of the store, which keeps it.
abbrev Synced : Store → Type 0
Synced s =
    (s.path ≡ true)
    × Unique s.m
    × (((s.file ≡ missing) × (s.m ≡ [])) ⊎ (s.file ≡ sessions (persisted s.m)))

save_locked-Synced :
    (now : ℕ) (s : Store) → s.path ≡ true → Unique s.m → Synced (save_locked now true s)
unfolding save_locked
save_locked-Synced now s p u =
    rw (p, delete_if-Unique (expired_at now) s.m u)
      (refl, delete_if-Unique (expired_at now) s.m u, inr refl)

check-store :
    (key : Text → Text) (token : Text) (now : ℕ) (s : Store)
    → ((check key token now true s).1 ≡ s)
      ⊎ ((check key token now true s).1 ≡ revoke key token now true s)
unfolding check
check-store key token now s = elim (Option-cases (lookup (key token) s.m)) [
  | inl h ↦ inl (rw (h, check) refl)
  | inr (e, h) ↦ elim (Bool-cases (ltb e.expires now)) [
    | inl b ↦ inr (rw (h, check, b) refl)
    | inr b ↦ inl (rw (h, check, b) refl)
  ]
]

revoke-Synced :
    (key : Text → Text) (token : Text) (now : ℕ) (s : Store)
    → Synced s
    → Synced (revoke key token now true s)
unfolding revoke
revoke-Synced key token now s h = save_locked-Synced now _ h.0 (delete-Unique (key token) s.m h.1)

step-Synced : (key : Text → Text) (o : Op) (s : Store) → Synced s → Synced (step key o s)
unfolding create revoke_by_username
step-Synced key (creates token role username flags now) s h =
    save_locked-Synced now _ h.0 (insert-Unique (key token) _ s.m h.1)
step-Synced key (revokes token now) s h = revoke-Synced key token now s h
step-Synced key (revokes_user username now) s h =
    save_locked-Synced now _ h.0 (delete_if-Unique _ s.m h.1)
step-Synced key (checks token now) s h = elim (check-store key token now s) [
  | inl e ↦ rw e h
  | inr e ↦ rw e (revoke-Synced key token now s h)
]

run-Synced : (key : Text → Text) (os : List Op) (s : Store) → Synced s → Synced (run key os s)
unfolding run
run-Synced key [] s h = h
run-Synced key (o ∷ os) s h = run-Synced key os _ (step-Synced key o s h)

check-session :
    (key : Text → Text) (token : Text) (now : ℕ) (w : Bool) (s s' : Store)
    → kept (λ e. ltb e.expires now) (lookup (key token) s.m)
      ≡ kept (λ e. ltb e.expires now) (lookup (key token) s'.m)
    → (check key token now w s).0 ≡ (check key token now w s').0
unfolding check kept
check-session key token now w s s' h = ground (arith, h)

kept-later :
    (restart now : ℕ) (o : Option SessionEntry)
    → restart < now
    → kept (λ e. ltb e.expires now) (or_else (kept (λ e. not (ltb restart e.expires)) o) none)
      ≡ kept (λ e. ltb e.expires now) o
unfolding kept or_else
kept-later restart now none h = refl
kept-later restart now (some e) h = ground arith

restarted-m :
    (restart ttl : ℕ) (f : SessionFile) (l : List (Text × SessionEntry))
    → ((f ≡ missing) × (l ≡ [])) ⊎ (f ≡ sessions (persisted l))
    → (persist restart (new_session_store ttl f)).1.m ≡ load restart (persisted l) []
unfolding persist new_session_store load persisted
restarted-m restart ttl f l (inl h) = rw (h.0, h.1) refl
restarted-m restart ttl f l (inr h) = rw h refl

restart-check :
    (key : Text → Text) (ttl restart now : ℕ) (token : Text) (s : Store)
    → is_empty (key token) ≡ false
    → restart < now
    → Synced s
    → (check key token now true (persist restart (new_session_store ttl s.file)).1).0
      ≡ (check key token now true s).0
unfolding lookup
restart-check key ttl restart now token s n h sync = check-session key token now true _ s (
    rw (restarted-m restart ttl s.file s.m sync.2, lookup-load restart (key token) s.m [] n sync.1)
      (kept-later restart now (lookup (key token) s.m) h))

start-Synced : (start ttl : ℕ) → Synced (persist start (new_session_store ttl missing)).1
unfolding persist new_session_store Unique
start-Synced start ttl = (refl, refl, inl (refl, refl))

-- Logins survive a restart: after any logins, logouts, account resets and requests of a store that
-- began without a file and whose writes succeed, a new store that loads the file answers every later
-- request as the old store would.
pub persist-check :
    (key : Text → Text) (os : List Op) (ttl ttl' start restart now : ℕ) (token : Text)
    → is_empty (key token) ≡ false
    → restart < now
    → let old = run key os (persist start (new_session_store ttl missing)).1 in
      (check key token now true (persist restart (new_session_store ttl' old.file)).1).0
      ≡ (check key token now true old).0
persist-check key os ttl ttl' start restart now token n h =
    restart-check key ttl' restart now token _ n h (run-Synced key os _ (start-Synced start ttl))
