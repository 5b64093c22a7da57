-- ===== src/Auth/Credentials.antt =====
-- backend/internal/auth/credentials.go: the directory of accounts that a login is checked against, as
-- refreshDerived of backend/internal/server/server.go builds it. SHA-256 is a parameter.
use re_terminal_eink_signage.Base.{
  ℕ, suc, ◌≡◌, refl, sym, ap, ◌∙◌, ◌⊎◌, inl, inr, Bool, not, Option, none, some, List, [], ◌∷◌,
  ◌==◌, if◌then◌else◌, length, get_elem?, Bool-cases, Option-cases, some_injective, Text, text_eq,
  text_eq→eq, is_empty, lower, decode_hex, lookup, insert, lookup-insert,
}
use re_terminal_eink_signage.Config.Types.{User}

pub record EntryHash : Type 0 where
  pub hash : List ℕ
  pub role : Text
  pub must_change_password : Bool
  pub totp_enabled : Bool

-- `decodeHash`.
unfoldable pub decode_hash : Text → Option (List ℕ)
decode_hash hex_hash = elim (decode_hex hex_hash) [
  | none ↦ none
  | some b ↦ (if length b == 32 then some b else none)
]

abbrev pub Directory : Type 0
Directory = List (Text × EntryHash)

abbrev pub entry_hash : User → List ℕ → EntryHash
entry_hash u b = record {
  hash = b;
  role = u.role;
  must_change_password = u.must_change_password;
  totp_enabled = not (is_empty u.totp_secret);
}

-- The loop of `NewDirectory` over the accounts' entries.
unfoldable pub directory_of : List User → Directory → Directory
directory_of [] m = m
directory_of (u ∷ us) m = elim (decode_hash u.password_sha256) [
  | none ↦ directory_of us m
  | some b ↦ directory_of us (insert (lower u.username) (entry_hash u b) m)
]

pub record VerifyResult : Type 0 where
  pub role : Text
  pub must_change_password : Bool
  pub totp_enabled : Bool

abbrev result_of : EntryHash → VerifyResult
result_of e = record {
  role = e.role;
  must_change_password = e.must_change_password;
  totp_enabled = e.totp_enabled;
}

-- `Directory.Verify`.
unfoldable pub verify : (Text → List ℕ) → Directory → Text → Text → Option VerifyResult
verify sha256 d username password = elim (lookup (lower username) d) [
  | none ↦ none
  | some e ↦ (if text_eq (sha256 password) e.hash then some (result_of e) else none)
]

-- An account of the name, in any case, with the entry.
abbrev HasEntry : List User → Text → EntryHash → Type 0
HasEntry users name e =
    (i : ℕ) × (u : User) × (b : List ℕ) × (get_elem? users i ≡ some u)
    × (lower u.username ≡ name)
    × (decode_hash u.password_sha256 ≡ some b)
    × (e ≡ entry_hash u b)

directory_of-HasEntry :
    (users : List User) (m : Directory) (name : Text) (e : EntryHash)
    → lookup name (directory_of users m) ≡ some e
    → HasEntry users name e ⊎ (lookup name m ≡ some e)
unfolding directory_of
directory_of-HasEntry [] m name e h = inr h
directory_of-HasEntry (u ∷ us) m name e h = elim (Option-cases (decode_hash u.password_sha256)) [
  | inl bad ↦ later (directory_of-HasEntry us m name e (rw (directory_of, bad) at h))
  | inr (b, good) ↦ elim (directory_of-HasEntry us _ name e (rw (directory_of, good) at h)) [
    | inl found ↦ later (inl found)
    | inr put ↦ elim (Bool-cases (text_eq (lower u.username) name)) [
      | inl same ↦ inl (
        0,
        u,
        b,
        refl,
        text_eq→eq (lower u.username) name same,
        good,
        sym (some_injective (rw (lookup-insert, same) at put)),
      )
      | inr other ↦ inr (rw (lookup-insert, other) at put)
    ]
  ]
]
  where
    later :
        HasEntry us name e ⊎ (lookup name m ≡ some e)
        → HasEntry (u ∷ us) name e ⊎ (lookup name m ≡ some e)
    later (inl (i, v, b, at, named, good, same)) = inl (suc i, v, b, at, named, good, same)
    later (inr old) = inr old

-- A login that is accepted is that of an account of the given name, in any case, and reports that
-- account's role, and whether it has to change its password and has a second factor.
pub verify-account :
    (sha256 : Text → List ℕ) (users : List User) (username password : Text) (r : VerifyResult)
    → verify sha256 (directory_of users []) username password ≡ some r
    → (i : ℕ) × (u : User) × (get_elem? users i ≡ some u)
      × (lower u.username ≡ lower username)
      × (decode_hash u.password_sha256 ≡ some (sha256 password))
      × (r ≡ record {
        role = u.role;
        must_change_password = u.must_change_password;
        totp_enabled = not (is_empty u.totp_secret);
      })
unfolding verify lookup
verify-account sha256 users username password r h =
    elim (Option-cases (lookup (lower username) (directory_of users []))) [
      | inl e ↦ let unknown = rw (verify, e) at h in absurd cc
      | inr (e, found) ↦ elim (Bool-cases (text_eq (sha256 password) e.hash)) [
        | inl right ↦
            let given = some_injective (rw (verify, found, right) at h) in
            elim (directory_of-HasEntry users [] (lower username) e found) [
              | inl (i, u, b, at, named, good, same) ↦ (
                i,
                u,
                at,
                named,
                good
                    ∙ ap some
                        (sym (text_eq→eq (sha256 password) e.hash right ∙ ap (λ x. x.hash) same)),
                sym given ∙ ap result_of same,
              )
              | inr old ↦ absurd cc
            ]
        | inr wrong ↦ let refused = rw (verify, found, wrong) at h in absurd cc
      ]
    ]
