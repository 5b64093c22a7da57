-- ===== src/Config/Edits/Logins.antt =====
-- A login after an edit of an account, when the directory is built from the edited accounts as
-- refreshDerived of backend/internal/server/server.go does.
use re_terminal_eink_signage.Base.{
  ℕ, ◌≡◌, refl, ap, ◌∙◌, sym, ◌<◌, ◌==◌, inl, inr, Bool, true, false, not, Option, some, List, [],
  ◌∷◌, arith, map, length, All, Bool-cases, Option-cases, Text, text_eq, is_empty, lower, fold,
  fold-lower, Ascii, equal_fold, hex_value, hex_digit, encode_hex, decode_hex, lookup,
  lookup-insert, suc, zero, get_elem?, get_elem?-map, subst, some_injective, text_eq_refl,
  eq→text_eq, text_eq→eq, ◌/◌, ◌%◌, ◌⊎◌,
}
use re_terminal_eink_signage.Config.Types.{Config, User, find_user, user_by_username}
use re_terminal_eink_signage.Config.Checks.{Distinct, ConfigError}
use re_terminal_eink_signage.Config.WellFormed.{validate-IsWellFormed}
use re_terminal_eink_signage.Config.Edits.{with_user, validated-valid}
use re_terminal_eink_signage.Config.Edits.Lookups.{
  sets_user, user_by_username-edit_user, edit_user, user_after,
}
use re_terminal_eink_signage.Auth.Credentials.{
  Directory, entry_hash, decode_hash, directory_of, verify,
}

pub find_user-get :
    (name : Text) (us : List User) (u : User)
    → find_user name us ≡ some u
    → (i : ℕ) × (get_elem? us i ≡ some u) × (fold u.username ≡ fold name)
unfolding find_user equal_fold
find_user-get name [] u h = cc
find_user-get name (v ∷ us) u h = elim (Bool-cases (text_eq (fold v.username) (fold name))) [
  | inl e ↦
      let same = some_injective (rw (find_user, e) at h) in
      (0, ap some same, ap (λ (z : User). fold z.username) (sym same) ∙ text_eq→eq _ _ e)
  | inr e ↦
      let (i, at, named) = find_user-get name us u (rw (find_user, e) at h) in (suc i, at, named)
]

-- The accounts' names are in ASCII.
abbrev pub AsciiNames : List User → Type 0
AsciiNames us = All (λ u. Ascii u.username) us

pub AsciiNames-get :
    (us : List User) (i : ℕ) (u : User) → AsciiNames us → get_elem? us i ≡ some u → Ascii u.username
AsciiNames-get [] i u a at = cc
AsciiNames-get (v ∷ us) zero u a at = subst (λ (z : User). Ascii z.username) (some_injective at) a.0
AsciiNames-get (v ∷ us) (suc i) u a at = AsciiNames-get us i u a.1 at

-- An account that is found by a name in ASCII has its small letters.
pub find_user-lower :
    (name : Text) (us : List User) (u : User)
    → AsciiNames us
    → Ascii name
    → find_user name us ≡ some u
    → (fold u.username ≡ fold name) × (lower u.username ≡ lower name)
find_user-lower name us u names ascii h =
    let (i, at, named) = find_user-get name us u h in
    (named, fold-lower u.username name (AsciiNames-get us i u names at) ascii named)

-- Accounts whose names are the same in any case are the same.
pub same_account :
    (us : List User) (i j : ℕ) (u v : User)
    → Distinct (map (λ u. lower u.username) us)
    → get_elem? us i ≡ some u
    → get_elem? us j ≡ some v
    → lower v.username ≡ lower u.username
    → v ≡ u
same_account us i j u v distinct at_i at_j same =
    let i_j =
      distinct i j (lower u.username) (get_elem?-map _ us i u at_i)
        (get_elem?-map _ us j v at_j ∙ ap some same) in
    some_injective (sym at_j ∙ ap (get_elem? us) (sym i_j) ∙ at_i)

hex_value-hex_digit : (n : ℕ) → n < 16 → hex_value (hex_digit n) ≡ some n
unfolding hex_value
hex_value-hex_digit n h = ground arith

decode_hex-encode_hex : (bs : List ℕ) → All (λ b. b < 256) bs → decode_hex (encode_hex bs) ≡ some bs
unfolding decode_hex encode_hex
decode_hex-encode_hex [] a = refl
decode_hex-encode_hex (b ∷ bs) a =
    let high = hex_value-hex_digit (b / 16) (omega arith) in
    let low = hex_value-hex_digit (b % 16) (omega arith) in
    rw (decode_hex, high, low, decode_hex-encode_hex bs a.1) (ap (λ x. some (x ∷ bs)) (omega arith))

pub find_user-some :
    (users : List User) (name : Text) (u : User) → find_user name users ≡ some u → 0 < length users
unfolding find_user
find_user-some [] name u h = ground arith
find_user-some (v ∷ us) name u h = omega arith

lookup-directory_of-other :
    (users : List User) (m : Directory) (name : Text)
    → ((i : ℕ) (v : User) → get_elem? users i ≡ some v → text_eq (lower v.username) name ≡ false)
    → lookup name (directory_of users m) ≡ lookup name m
unfolding directory_of
lookup-directory_of-other [] m name other = refl
lookup-directory_of-other (v ∷ vs) m name other =
    elim (Option-cases (decode_hash v.password_sha256)) [
      | inl bad ↦ rw (directory_of, bad) (lookup-directory_of-other vs m name later)
      | inr (b, good) ↦
          rw (directory_of, good)
            (lookup-directory_of-other vs _ name later
              ∙ lookup-insert _ name _ m
              ∙ rw (other 0 v refl) refl)
    ]
  where
    later : (i : ℕ) (w : User) → get_elem? vs i ≡ some w → text_eq (lower w.username) name ≡ false
    later i w at = other (suc i) w at

lookup-directory_of-head :
    (v : User) (vs : List User) (m : Directory) (b : List ℕ)
    → Distinct (map (λ v. lower v.username) (v ∷ vs))
    → decode_hash v.password_sha256 ≡ some b
    → lookup (lower v.username) (directory_of (v ∷ vs) m) ≡ some (entry_hash v b)
unfolding directory_of
lookup-directory_of-head v vs m b distinct good =
    rw (directory_of, good)
      (lookup-directory_of-other vs _ (lower v.username) other
        ∙ lookup-insert _ (lower v.username) _ m
        ∙ rw (text_eq_refl (lower v.username)) refl)
  where
    other :
        (i : ℕ) (w : User)
        → get_elem? vs i ≡ some w
        → text_eq (lower w.username) (lower v.username) ≡ false
    other i w at = elim (Bool-cases (text_eq (lower w.username) (lower v.username))) [
      | inl same ↦
          let later = get_elem?-map (λ (z : User). lower z.username) vs i w at in
          let twice =
            distinct 0 (suc i) (lower v.username) refl (later ∙ ap some (text_eq→eq _ _ same)) in
          absurd (omega arith)
      | inr differs ↦ differs
    ]

lookup-directory_of :
    (users : List User) (m : Directory) (i : ℕ) (u : User) (b : List ℕ)
    → Distinct (map (λ v. lower v.username) users)
    → get_elem? users i ≡ some u
    → decode_hash u.password_sha256 ≡ some b
    → lookup (lower u.username) (directory_of users m) ≡ some (entry_hash u b)
unfolding directory_of
lookup-directory_of [] m i u b distinct at good = cc
lookup-directory_of (v ∷ vs) m zero u b distinct at good =
    subst
      (λ (z : User).
        decode_hash z.password_sha256 ≡ some b
        → lookup (lower z.username) (directory_of (v ∷ vs) m) ≡ some (entry_hash z b))
      (some_injective at) (lookup-directory_of-head v vs m b distinct) good
lookup-directory_of (v ∷ vs) m (suc i) u b distinct at good =
    elim (Option-cases (decode_hash v.password_sha256)) [
      | inl bad ↦ rw (directory_of, bad) (lookup-directory_of vs m i u b tail at good)
      | inr (c, e) ↦ rw (directory_of, e) (lookup-directory_of vs _ i u b tail at good)
    ]
  where
    tail : Distinct (map (λ w. lower w.username) vs)
    tail j k n at_j at_k = let next = distinct (suc j) (suc k) n at_j at_k in omega arith

-- The account with a new password, and whether it has to be changed.
abbrev pub set_password : (Text → List ℕ) → User → Text → Bool → User
set_password sha256 u password must = record u {
  password_sha256 = encode_hex (sha256 password);
  must_change_password = must;
}

pub edited-cases :
    (r : ConfigError ⊎ Config) → ((e : ConfigError) × (r ≡ inl e)) ⊎ ((c : Config) × (r ≡ inr c))
edited-cases (inl e) = inl (e, refl)
edited-cases (inr c) = inr (c, refl)

module _ (sha256 : Text → List ℕ) (load_location : Text → Bool)
    (url_parse : Text → Option (Text × Text))
    (digest : (t : Text) → (length (sha256 t) ≡ 32) × All (λ b. b < 256) (sha256 t)) where
  decode_hash-encode_hex : (t : Text) → decode_hash (encode_hex (sha256 t)) ≡ some (sha256 t)
  unfolding decode_hash
  decode_hash-encode_hex t =
      let (long, bytes) = digest t in
      let size : (length (sha256 t) == 32) ≡ true = ground (arith, long) in
      rw (decode_hash, decode_hex-encode_hex (sha256 t) bytes, size) refl

  pub verify-with_user :
      (u : User) (c next : Config) (name password : Text) (must : Bool)
      → with_user load_location url_parse (set_password sha256 u password must) c ≡ inr next
      → (fold u.username ≡ fold name) × (lower u.username ≡ lower name)
      → verify sha256 (directory_of next.users []) name password
        ≡ some (record {
          role = u.role;
          must_change_password = must;
          totp_enabled = not (is_empty u.totp_secret);
        })
  unfolding verify user_after edit_user user_by_username equal_fold with_user
  verify-with_user u c next name password must h (folds, named) =
      let changed = set_password sha256 u password must in
      let found =
        user_by_username-edit_user load_location url_parse (sets_user changed) c next name h
        ∙ rw (eq→text_eq _ _ folds) refl in
      let (i, at, same) = find_user-get name next.users changed found in
      let (_, _, _, accounts, _) =
        validate-IsWellFormed load_location url_parse next
          (validated-valid load_location url_parse _ next h) in
      let (_, distinct, _, _) = accounts (find_user-some next.users name changed found) in
      let entry =
        lookup-directory_of next.users [] i changed _ distinct at
          (decode_hash-encode_hex password) in
      let entry_name = ap (λ k. lookup k (directory_of next.users [])) (sym named) ∙ entry in
      rw (verify, entry_name, text_eq_refl (sha256 password)) refl
