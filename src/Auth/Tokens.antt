-- ===== src/Auth/Tokens.antt =====
-- backend/internal/server/forgot_password.go and password_reset.go: single-use reset links and
-- temporary passwords, and the limit on reset mails. The mutexes make each operation one step.
pub mod SingleUse
pub mod RateLimit
use re_terminal_eink_signage.Base.{
  ℕ, ◌+◌, ◌*◌, Bool, Option, none, some, List, ltb, leb, if◌then◌else◌, Text, lookup, insert,
  delete_if, delete,
}
use re_terminal_eink_signage.Calendar.{minute}

abbrev pub reset_token_ttl : ℕ
reset_token_ttl = 30 * minute

abbrev pub password_reset_ttl : ℕ
password_reset_ttl = 5 * minute

abbrev pub forgot_password_rate_limit : ℕ
forgot_password_rate_limit = 3

abbrev pub forgot_password_rate_window : ℕ
forgot_password_rate_window = 15 * minute

-- `resetToken` (its `password` is empty) and `passwordReset`.
pub record Reset : Type 0 where
  pub username : Text
  pub password : Text
  pub expires : ℕ

-- The two stores have the same shape.
abbrev pub ResetStore : Type 0
ResetStore = List (Text × Reset)

unfoldable pub put : ℕ → Text → Reset → ResetStore → ResetStore
put now token r s = insert token r (delete_if (λ k v. ltb v.expires now) s)

unfoldable pub peek : ℕ → Text → ResetStore → Option Reset
peek now token s = elim (lookup token s) [
  | none ↦ none
  | some r ↦ (if ltb r.expires now then none else some r)
]

unfoldable pub take : ℕ → Text → ResetStore → Option Reset × ResetStore
take now token s = elim (lookup token s) [
  | none ↦ (none, s)
  | some r ↦ (if ltb r.expires now then none else some r, delete token s)
]

pub record RateWindow : Type 0 where
  pub count : ℕ
  pub reset : ℕ

abbrev pub fresh_window : ℕ → ℕ → RateWindow
fresh_window now window = record { count = 0; reset = now + window }

abbrev pub window_of : Option RateWindow → ℕ → ℕ → RateWindow
window_of none now window = fresh_window now window
window_of (some w) now window = if ltb w.reset now then fresh_window now window else w

-- `allow`.
unfoldable pub allow : Text → ℕ → ℕ → ℕ → List (Text × RateWindow) → Bool × List (Text × RateWindow)
allow key limit window now counts =
    let w = window_of (lookup key counts) now window in
    (leb (w.count + 1) limit, insert key (record w { count = w.count + 1 }) counts)
