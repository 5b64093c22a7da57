-- ===== src/Auth/Sessions/Revocation.antt =====
-- What the operations of session.go do to every token's session.
use re_terminal_eink_signage.Base.{
  ℕ, ◌+◌, ◌<◌, ◌≡◌, sym, ap, ◌∙◌, Bool, not, Option, none, some, List, arith, ltb, leb,
  if◌then◌else◌, Text, text_eq, equal_fold, lookup, lookup-insert, lookup-delete,
}
use re_terminal_eink_signage.Auth.Sessions.{
  SessionFlags, SessionEntry, Session, Store, expired_at, save_locked, create, revoke, check,
  revoke_by_username,
}
use re_terminal_eink_signage.Auth.Sessions.Unique.{
  Unique, kept, lookup-delete_if, delete_if-Unique, delete-Unique, insert-Unique,
}

session_in : ℕ → Option SessionEntry → Option Session
session_in now none = none
session_in now (some e) =
    if ltb e.expires now
    then none
    else some (record { role = e.role; username = e.username; flags = e.flags })

check-session_in :
    (key : Text → Text) (token : Text) (now : ℕ) (w : Bool) (s : Store)
    → (check key token now w s).0 ≡ session_in now (lookup (key token) s.m)
unfolding check session_in
check-session_in key token now w s = ground arith

-- Saving changes no later answer.
save_locked-session_in :
    (now later : ℕ) (w : Bool) (k : Text) (s : Store)
    → Unique s.m
    → now < later
    → session_in later (lookup k (save_locked now w s).m) ≡ session_in later (lookup k s.m)
unfolding save_locked session_in expired_at kept
save_locked-session_in now later w k s u h =
    ground (arith, h, lookup-delete_if (λ e. not (ltb now e.expires)) k s.m u)

module _ (key : Text → Text) (token : Text) (now later : ℕ) (written w : Bool) (s : Store)
    (unique : Unique s.m) (after : now < later) where
  saved-check :
      (m : List (Text × SessionEntry))
      → Unique m
      → (check key token later w (save_locked now written (record s { m = m }))).0
        ≡ session_in later (lookup (key token) m)
  saved-check m u =
      check-session_in key token later w (save_locked now written (record s { m = m }))
      ∙ save_locked-session_in now later written (key token) (record s { m = m }) u after

  -- In a store with distinct keys, resetting an account ends exactly its sessions: every later request with any token is answered
  -- as without the reset, unless the session is of that account, in any case of its name; then it
  -- is refused.
  pub check-revoke_by_username :
      (username : Text)
      → (check key token later w (revoke_by_username username now written s)).0
        ≡ kept (λ session. equal_fold session.username username) (check key token later w s).0
  unfolding revoke_by_username session_in kept
  check-revoke_by_username username =
      saved-check _ (delete_if-Unique _ s.m unique)
      ∙ ap (session_in later)
          (lookup-delete_if (λ e. equal_fold e.username username) (key token) s.m unique)
      ∙ drops (lookup (key token) s.m)
      ∙ ap (kept (λ session. equal_fold session.username username))
          (sym (check-session_in key token later w s))
    where
      drops :
          (o : Option SessionEntry)
          → session_in later (kept (λ e. equal_fold e.username username) o)
            ≡ kept (λ session. equal_fold session.username username) (session_in later o)
      drops o = ground arith

  -- In a store with distinct keys, a logout ends the session with the token's hash, and changes no
  -- other answer of a later request.
  check-revoke :
      (token' : Text)
      → (check key token later w (revoke key token' now written s)).0
        ≡ (if text_eq (key token') (key token) then none else (check key token later w s).0)
  unfolding revoke session_in
  check-revoke token' =
      saved-check _ (delete-Unique (key token') s.m unique)
      ∙ ground
          (arith, lookup-delete (key token') (key token) s.m, check-session_in key token later w s)

  -- In a store with distinct keys, a login opens, for later requests, a session with what it was given until the store's lifetime is over, and changes
  -- no answer for a token of another hash.
  check-create :
      (token' role username : Text) (flags : SessionFlags)
      → (check key token later w (create key token' role username flags now written s)).0 ≡ (
          if text_eq (key token') (key token)
          then (if leb later (now + s.ttl)
              then some (record { role = role; username = username; flags = flags })
              else none)
          else (check key token later w s).0)
  unfolding create session_in
  check-create token' role username flags =
      let e : SessionEntry = record {
        role = role;
        username = username;
        flags = flags;
        expires = now + s.ttl;
      } in
      saved-check _ (insert-Unique (key token') e s.m unique)
      ∙ ground (
        arith,
        lookup-insert (key token') (key token) e s.m,
        check-session_in key token later w s,
      )
