-- ===== src/Auth.antt =====
-- backend/internal/auth: the roles, the sessions of session.go, and the children's stores. A role is
-- the text that the configuration gives, known or not.
pub mod Sessions
pub mod Tokens
pub mod Credentials
pub mod Totp
use re_terminal_eink_signage.Base.{ℕ, Bool, leb, if◌then◌else◌, Text, text, text_eq}

abbrev pub role_admin : Text
role_admin = text "admin"

abbrev pub role_manager : Text
role_manager = text "manager"

abbrev pub role_viewer : Text
role_viewer = text "viewer"

-- `roleRank`; a role that is not in the map has rank 0.
unfoldable pub role_rank : Text → ℕ
role_rank r =
    if text_eq r role_viewer
    then 1
    else (if text_eq r role_manager then 2 else (if text_eq r role_admin then 3 else 0))

unfoldable pub satisfies : Text → Text → Bool
satisfies r required = leb (role_rank required) (role_rank r)
