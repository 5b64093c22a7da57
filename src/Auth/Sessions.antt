-- ===== src/Auth/Sessions.antt =====
-- backend/internal/auth/session.go: the session store and its file. The hash of a token is a
-- parameter. The file is the list that is in it: its JSON encoding is left out, and so is the
-- generator of tokens. The mutex makes each operation one step.
pub mod Unique
pub mod Persistence
pub mod Revocation
use re_terminal_eink_signage.Base.{
  ℕ, ◌+◌, Bool, true, false, not, ◌||◌, Option, none, some, List, [], ◌∷◌, ltb, if◌then◌else◌, Text,
  is_empty, equal_fold, lookup, insert, delete_if, delete,
}

pub record SessionFlags : Type 0 where
  pub must_change_password : Bool
  pub pending_2fa : Bool

pub record SessionEntry : Type 0 where
  pub role : Text
  pub username : Text
  pub flags : SessionFlags
  pub expires : ℕ

pub record Session : Type 0 where
  pub role : Text
  pub username : Text
  pub flags : SessionFlags

pub record PersistedSession : Type 0 where
  pub key : Text
  pub role : Text
  pub username : Text
  pub must_change_password : Bool
  pub pending_2fa : Bool
  pub expires : ℕ

-- What reading the file finds; `unreadable` covers an error, bad JSON and another version.
pub data SessionFile : Type 0 where
  missing unreadable : SessionFile
  sessions : List PersistedSession → SessionFile

-- `SessionStore`, and the file at its path; `path` tells whether one is set.
pub record Store : Type 0 where
  pub m : List (Text × SessionEntry)
  pub ttl : ℕ
  pub path : Bool
  pub file : SessionFile

unfoldable pub new_session_store : ℕ → SessionFile → Store
new_session_store ttl file = record { m = []; ttl = ttl; path = false; file = file }

abbrev pub to_persisted : Text → SessionEntry → PersistedSession
to_persisted k e = record {
  key = k;
  role = e.role;
  username = e.username;
  must_change_password = e.flags.must_change_password;
  pending_2fa = e.flags.pending_2fa;
  expires = e.expires;
}

abbrev pub of_persisted : PersistedSession → SessionEntry
of_persisted p = record {
  role = p.role;
  username = p.username;
  flags = record { must_change_password = p.must_change_password; pending_2fa = p.pending_2fa };
  expires = p.expires;
}

unfoldable pub expired_at : ℕ → Text → SessionEntry → Bool
expired_at now k e = not (ltb now e.expires)

unfoldable pub persisted : List (Text × SessionEntry) → List PersistedSession
persisted [] = []
persisted ((k, e) ∷ m) = to_persisted k e ∷ persisted m

-- `saveLocked`, given whether the file was written.
unfoldable pub save_locked : ℕ → Bool → Store → Store
save_locked now written s =
    let live = delete_if (expired_at now) s.m in
    if not s.path
    then s
    else record s { m = live; file = if written then sessions (persisted live) else s.file }

-- The loop of `Persist` over the file's sessions.
unfoldable pub load :
    ℕ → List PersistedSession → List (Text × SessionEntry) → List (Text × SessionEntry)
load now [] m = m
load now (p ∷ ps) m =
    if is_empty p.key || not (ltb now p.expires)
    then load now ps m
    else load now ps (insert p.key (of_persisted p) m)

-- `Persist`; its error is `true`.
unfoldable pub persist : ℕ → Store → Bool × Store
unfolding load
persist now s = elim s.file [
  | missing ↦ (false, record s { path = true })
  | unreadable ↦ (true, record s { path = true })
  | sessions ps ↦ (false, record s { path = true; m = load now ps s.m })
]

module _ (key : Text → Text) where
  -- `Create`, given the new token.
  unfoldable pub create : Text → Text → Text → SessionFlags → ℕ → Bool → Store → Store
  create token role username flags now written s = save_locked now written (record s {
    m =
        insert (key token)
          (record { role = role; username = username; flags = flags; expires = now + s.ttl }) s.m;
  })

  unfoldable pub revoke : Text → ℕ → Bool → Store → Store
  revoke token now written s = save_locked now written (record s { m = delete (key token) s.m })

  unfoldable pub check : Text → ℕ → Bool → Store → Option Session × Store
  check token now written s = elim (lookup (key token) s.m) [
    | none ↦ (none, s)
    | some e ↦
        (if ltb e.expires now
          then (none, revoke token now written s)
          else (some (record { role = e.role; username = e.username; flags = e.flags }), s))
  ]

unfoldable pub revoke_by_username : Text → ℕ → Bool → Store → Store
revoke_by_username username now written s =
    save_locked now written (record s { m = delete_if (λ k e. equal_fold e.username username) s.m })
