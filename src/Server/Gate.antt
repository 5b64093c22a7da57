-- ===== src/Server/Gate.antt =====
-- `requireRole` of backend/internal/server/login.go: which pages a session may reach.
pub mod Confinement
use re_terminal_eink_signage.Base.{
  ℕ, Bool, false, not, ◌&&◌, Option, none, some, if◌then◌else◌, Text, text, text_eq, is_empty,
}
use re_terminal_eink_signage.Config.Types.{Config, two_factor_required, user_by_username}
use re_terminal_eink_signage.Auth.{role_admin, role_manager, role_viewer, satisfies}
use re_terminal_eink_signage.Auth.Sessions.{Session, Store, check}

pub record RoleUi : Type 0 where
  pub role : Text
  pub label : Text
  pub cookie_name : Text
  pub login_path : Text
  pub home_path : Text
  pub change_password_path : Text
  pub totp_verify_path : Text
  pub totp_setup_path : Text
  pub totp_enable_path : Text

abbrev pub admin_ui : RoleUi
admin_ui = record {
  role = role_admin;
  label = text "Admin";
  cookie_name = text "admin_session";
  login_path = text "/admin/login";
  home_path = text "/admin";
  change_password_path = text "/admin/change-password";
  totp_verify_path = text "/admin/verify-2fa";
  totp_setup_path = text "/admin/2fa/setup";
  totp_enable_path = text "/admin/2fa/enable";
}

abbrev pub manager_ui : RoleUi
manager_ui = record {
  role = role_manager;
  label = text "Manager";
  cookie_name = text "manager_session";
  login_path = text "/manager/login";
  home_path = text "/manager";
  change_password_path = text "/manager/change-password";
  totp_verify_path = text "/manager/verify-2fa";
  totp_setup_path = text "/manager/2fa/setup";
  totp_enable_path = text "/manager/2fa/enable";
}

abbrev pub viewer_ui : RoleUi
viewer_ui = record {
  role = role_viewer;
  label = text "Viewer";
  cookie_name = text "viewer_session";
  login_path = text "/dashboard/login";
  home_path = text "/dashboard";
  change_password_path = text "/dashboard/change-password";
  totp_verify_path = text "/dashboard/verify-2fa";
  totp_setup_path = text "/dashboard/2fa/setup";
  totp_enable_path = text "/dashboard/2fa/enable";
}

-- `needs2FAEnrollment`.
unfoldable pub needs_2fa_enrollment : Config → Session → Bool
needs_2fa_enrollment cfg sess =
    two_factor_required cfg.auth
    && elim (user_by_username cfg sess.username) [ none ↦ false | some u ↦ is_empty u.totp_secret ]

-- What the guard does with a request: it calls the page's handler, or redirects; to the login page
-- also with the path to come back to.
pub data Outcome : Type 0 where
  serves : Outcome
  redirects : Text → Outcome
  asks_login : Text → Text → Outcome

-- The guard from the point where a session was found.
unfoldable pub admit : Config → RoleUi → Session → Text → Outcome
admit cfg ui sess path =
    if not (satisfies sess.role ui.role)
    then redirects ui.login_path
    else (if sess.flags.must_change_password
        then (if not (text_eq path ui.change_password_path)
            then redirects ui.change_password_path
            else serves)
        else (if sess.flags.pending_2fa && not (text_eq path ui.totp_verify_path)
            then redirects ui.totp_verify_path
            else (if needs_2fa_enrollment cfg sess
                  && not (text_eq path ui.totp_setup_path)
                  && not (text_eq path ui.totp_enable_path)
                then redirects ui.totp_setup_path
                else serves)))

-- `requireRole`, for the cookie's value: what it does, and the session store after its `Check`.
unfoldable pub require_role :
    (Text → Text) → Config → RoleUi → Option Text → Text → ℕ → Bool → Store → Outcome × Store
require_role key cfg ui none path now written s = (asks_login ui.login_path path, s)
require_role key cfg ui (some token) path now written s =
    let found = check key token now written s in
    (elim found.0 [ none ↦ redirects ui.login_path | some sess ↦ admit cfg ui sess path ], found.1)
