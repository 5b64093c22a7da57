-- ===== src/Server/Login/Kept.antt =====
-- What the handlers do to the entries of the session store.
use re_terminal_eink_signage.Base.{
  ℕ, ◌+◌, ◌≡◌, subst, inl, inr, Bool, not, Option, none, some, All, Bool-cases, Option-cases,
  some_injective, Text, lookup, All-insert, All-delete, All-delete_if, All-lookup, ltb,
}
use re_terminal_eink_signage.Auth.Sessions.{
  Session, SessionEntry, SessionFlags, Store, save_locked, create, check, revoke,
}
use re_terminal_eink_signage.Server.Gate.{RoleUi}
use re_terminal_eink_signage.Server.Login.{door_session, reissue}

-- What the operations of the session store keep, when the entry of a new session has it.
module _ (key : Text → Text) (P : SessionEntry → Type 0) where
  abbrev pub Kept : Store → Type 0
  Kept s = All (λ e. P e.1) s.m

  pub save_locked-Kept : (now : ℕ) (w : Bool) (s : Store) → Kept s → Kept (save_locked now w s)
  unfolding save_locked
  save_locked-Kept now w s k = elim (Bool-cases (not s.path)) [
    | inl e ↦ rw (save_locked, e) k
    | inr e ↦ rw (save_locked, e) (All-delete_if P _ s.m k)
  ]

  pub create-Kept :
      (token role username : Text) (flags : SessionFlags) (now : ℕ) (w : Bool) (s : Store)
      → P (record { role = role; username = username; flags = flags; expires = now + s.ttl })
      → Kept s
      → Kept (create key token role username flags now w s)
  unfolding create
  create-Kept token role username flags now w s p k =
      save_locked-Kept now w _ (All-insert P (key token) _ s.m p k)

  pub revoke-Kept :
      (token : Text) (now : ℕ) (w : Bool) (s : Store) → Kept s → Kept (revoke key token now w s)
  unfolding revoke
  revoke-Kept token now w s k = save_locked-Kept now w _ (All-delete P (key token) s.m k)

  pub check-Kept :
      (token : Text) (now : ℕ) (w : Bool) (s : Store) → Kept s → Kept (check key token now w s).1
  unfolding check
  check-Kept token now w s k = elim (Option-cases (lookup (key token) s.m)) [
    | inl e ↦ rw (check, e) k
    | inr (x, e) ↦ elim (Bool-cases (ltb x.expires now)) [
      | inl old ↦ rw (check, e, old) (revoke-Kept token now w s k)
      | inr live ↦ rw (check, e, live) k
    ]
  ]

  pub door_session-Kept :
      (ui : RoleUi) (cookie : Option Text) (now : ℕ) (w : Bool) (s : Store)
      → Kept s
      → Kept (door_session key ui cookie now w s).1
  unfolding door_session
  door_session-Kept ui none now w s k = k
  door_session-Kept ui (some token) now w s k = check-Kept token now w s k

  pub reissue-Kept :
      (cookie : Option Text) (token : Text) (sess : Session) (flags : SessionFlags) (now : ℕ)
      (w : Bool) (s : Store)
      → ((expires : ℕ)
          → P (record {
            role = sess.role;
            username = sess.username;
            flags = flags;
            expires = expires;
          }))
      → Kept s
      → Kept (reissue key cookie token sess flags now w s)
  unfolding reissue
  reissue-Kept none token sess flags now w s p k =
      create-Kept token sess.role sess.username flags now w s (p _) k
  reissue-Kept (some old) token sess flags now w s p k =
      create-Kept token sess.role sess.username flags now w _ (p _) (revoke-Kept old now w s k)

  -- What a session answered by `Check` has.
  pub check-P :
      (token : Text) (now : ℕ) (w : Bool) (s : Store) (sess : Session)
      → Kept s
      → (check key token now w s).0 ≡ some sess
      → (expires : ℕ) × P (record {
        role = sess.role;
        username = sess.username;
        flags = sess.flags;
        expires = expires;
      })
  unfolding check
  check-P token now w s sess k h = elim (Option-cases (lookup (key token) s.m)) [
    | inl e ↦ let absent = rw (check, e) at h in absurd cc
    | inr (x, e) ↦ elim (Bool-cases (ltb x.expires now)) [
      | inl old ↦ let over = rw (check, e, old) at h in absurd cc
      | inr live ↦
          let same = some_injective (rw (check, e, live) at h) in
          (
            x.expires,
            subst
                (λ (z : Session). P (record {
                  role = z.role;
                  username = z.username;
                  flags = z.flags;
                  expires = x.expires;
                }))
                same (All-lookup P (key token) x s.m k e),
          )
    ]
  ]
