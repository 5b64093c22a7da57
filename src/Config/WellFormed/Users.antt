-- ===== src/Config/WellFormed/Users.antt =====
-- What `Validate` checks of the accounts.
use re_terminal_eink_signage.Base.{
  ℕ, ◌+◌, ◌≤◌, ◌<◌, ◌==◌, ◌≡◌, Bool, true, false, ◌||◌, none, List, [], ◌∷◌, map, arith, length,
  any, All, Text, text, text_eq, is_empty, lower,
}
use re_terminal_eink_signage.Config.Types.{Config, User}
use re_terminal_eink_signage.Config.Checks.{
  first_error-none, reject_if-none, Unseen, Distinct, Unseen-Distinct,
}
use re_terminal_eink_signage.Config.Validate.Users.{
  valid_user_role, validate_accounts, validate_users,
}

-- An account has a name, a password's hash and a role of the three.
abbrev pub IsAccount : User → Type 0
IsAccount u =
    (is_empty u.username ≡ false)
    × (length u.password_sha256 ≡ 64)
    × (valid_user_role u.role ≡ true)

abbrev pub is_admin : User → Bool
is_admin u = text_eq u.role (text "admin")

-- Either nobody can log in, or the accounts are usable, no two have the same name in any case, one
-- is an administrator's, and the session secret is long enough.
abbrev pub Accounts : Config → Type 0
Accounts c =
    0 < length c.users
    → All IsAccount c.users
      × Distinct (map (λ u. lower u.username) c.users)
      × (any is_admin c.users ≡ true)
      × (32 ≤ length c.auth.session_secret)

validate_accounts-none :
    (seen : List Text) (has_admin : Bool) (i : ℕ) (users : List User)
    → validate_accounts seen has_admin i users ≡ none
    → All IsAccount users
      × Unseen seen (map (λ u. lower u.username) users)
      × ((any is_admin users || has_admin) ≡ true)
unfolding validate_accounts Unseen
validate_accounts-none seen has_admin i [] h =
    (tt, tt, let r = reject_if-none _ _ h in ground (arith, r))
validate_accounts-none seen has_admin i (u ∷ us) h =
    let (named, (new, (hashed, (role, (rest, _))))) = first_error-none _ h in
    let (all, unseen, admin) =
      validate_accounts-none (lower u.username ∷ seen) (is_admin u || has_admin) (i + 1) us rest in
    let n = reject_if-none _ _ named in
    let p = reject_if-none _ _ hashed in
    let r = reject_if-none _ _ role in
    (
      ((n, ground (arith, p), ground (arith, r)), all),
      (reject_if-none _ _ new, unseen),
      ground (arith, admin),
    )

pub validate_users-Accounts : (c : Config) → validate_users c ≡ none → Accounts c
unfolding validate_users
validate_users-Accounts c h some_user =
    let some_account : (length c.users == 0) ≡ false = ground (arith, some_user) in
    let (secret, (_, (accounts, _))) = first_error-none _ (rw some_account at h) in
    let (all, unseen, admin) = validate_accounts-none [] false 0 c.users accounts in
    let long = reject_if-none _ _ secret in
    (all, Unseen-Distinct [] _ unseen, ground (arith, admin), ground (arith, long))
