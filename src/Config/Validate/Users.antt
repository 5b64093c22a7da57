-- ===== src/Config/Validate/Users.antt =====
-- `validateUsers` of config.go.
use re_terminal_eink_signage.Base.{
  ℕ, ◌+◌, Bool, false, not, ◌||◌, Option, none, List, [], ◌∷◌, ltb, ◌==◌, if◌then◌else◌, length,
  Text, text, text_eq, is_empty, lower,
}
use re_terminal_eink_signage.Config.Types.{Config, PasswordResetConfig, User}
use re_terminal_eink_signage.Config.Checks.{
  ConfigError, bad_password_hash, bad_role, duplicate_username, from_address_missing, no_admin,
  public_base_url_missing, short_session_secret, smtp_relay_missing, username_missing, reject_if,
  first_error, contains,
}

unfoldable pub valid_user_role : Text → Bool
valid_user_role r =
    text_eq r (text "admin") || text_eq r (text "manager") || text_eq r (text "viewer")

-- The loop over the users from the i-th on, and the test for an admin after it.
unfoldable pub validate_accounts : List Text → Bool → ℕ → List User → Option ConfigError
validate_accounts seen has_admin i [] = reject_if (not has_admin) no_admin
validate_accounts seen has_admin i (u ∷ us) = first_error (
    reject_if (is_empty u.username) (username_missing i)
    ∷ reject_if (contains (lower u.username) seen) (duplicate_username u.username)
    ∷ reject_if (not (length u.password_sha256 == 64)) (bad_password_hash u.username)
    ∷ reject_if (not (valid_user_role u.role)) (bad_role u.username u.role)
    ∷ validate_accounts (lower u.username ∷ seen) (text_eq u.role (text "admin") || has_admin)
        (i + 1) us
    ∷ [])

unfoldable pub validate_password_reset : PasswordResetConfig → Option ConfigError
validate_password_reset p =
    if not p.enabled
    then none
    else first_error (
        reject_if (is_empty p.smtp_host || p.smtp_port == 0) smtp_relay_missing
        ∷ reject_if (is_empty p.from_address) from_address_missing
        ∷ reject_if (is_empty p.public_base_url) public_base_url_missing
        ∷ [])

unfoldable pub validate_users : Config → Option ConfigError
validate_users c =
    if length c.users == 0
    then none
    else first_error (
        reject_if (ltb (length c.auth.session_secret) 32) short_session_secret
        ∷ validate_password_reset c.auth.password_reset
        ∷ validate_accounts [] false 0 c.users
        ∷ [])
