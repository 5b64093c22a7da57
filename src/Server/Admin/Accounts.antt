-- ===== src/Server/Admin/Accounts.antt =====
-- The accounts of the web pages: handleAdminSaveUser, handleAdminDeleteUser, handleTOTPEnableSubmit
-- and handleTOTPDisableSubmit of backend/internal/server/admin.go.
pub mod Serves
pub mod Renamed
use re_terminal_eink_signage.Base.{
  Bool, true, false, not, ◌&&◌, ◌||◌, Option, none, some, [], ◌++◌, if◌then◌else◌, Text, text,
  text_eq, is_empty, equal_fold, encode_hex,
}
use re_terminal_eink_signage.Config.Types.{Config, User, two_factor_required, user_by_username}
use re_terminal_eink_signage.Config.Edits.{with_user, without_user}
use re_terminal_eink_signage.Auth.{role_admin}
use re_terminal_eink_signage.Auth.Sessions.{Session, check}
use re_terminal_eink_signage.Server.Gate.{RoleUi, admin_ui}
use re_terminal_eink_signage.Server.Forms.{Form, form_get, form_all, trimmed}
use re_terminal_eink_signage.Server.Login.{door_session}
use re_terminal_eink_signage.Server.Site.{
  World, Moment, Site, Reply, redirects, complains, asks_again, says, commit,
}
use re_terminal_eink_signage.Server.Admin.Settings.{then_rename, unless_refused}

-- The zero `User`, which `UserByUsername` gives when there is none.
abbrev pub user_or_zero : Option User → User
user_or_zero (some u) = u
user_or_zero none = record {
  username = [];
  password_sha256 = [];
  role = [];
  must_change_password = false;
  totp_secret = [];
  email = [];
  locations = [];
}

module _ (w : World) where
  -- `sessionUsername`: any session of the door's cookie, also one of a lower role.
  unfoldable pub session_username : Moment → Option Text → Site → Text × Site
  session_username m none s = ([], s)
  session_username m (some token) s =
      let found = check w.key token m.now m.written s.sessions in
      (elim found.0 [ none ↦ [] | some sess ↦ sess.username ], record s { sessions = found.1 })

  -- `currentSession`.
  abbrev pub current_session : Moment → RoleUi → Option Text → Site → Option Session × Site
  current_session m ui cookie s =
      let found = door_session w.key ui cookie m.now m.written s.sessions in
      (found.0, record s { sessions = found.1 })

  -- The password's hash, and whether it has to be changed.
  unfoldable pub password_of_form : Form → Config → Text × Bool
  password_of_form f cfg =
      let plaintext = form_get (text "password") f in
      let original = form_get (text "original_username") f in
      let old = user_or_zero (user_by_username cfg original) in
      if not (is_empty plaintext)
      then (
        encode_hex (w.sha256 plaintext),
        not (is_empty (form_get (text "force_password_change") f)),
      )
      else (if not (is_empty original)
          then (old.password_sha256, old.must_change_password)
          else ([], false))

  -- The second factor and the address are those of the account that there was.
  unfoldable pub user_of_form : Form → Config → User
  unfolding password_of_form
  user_of_form f cfg =
      let username = form_get (text "username") f in
      let original = form_get (text "original_username") f in
      let old =
        user_or_zero
          (user_by_username cfg (if not (is_empty original) then original else username)) in
      record old {
        username = username;
        password_sha256 = (password_of_form f cfg).0;
        must_change_password = (password_of_form f cfg).1;
        role = form_get (text "role") f;
        locations = trimmed (form_all (text "locations") f);
      }

  -- An account that changed its name: the old entry goes too, unless that is refused.
  unfoldable pub renamed_user : Text → Text → Config → Config
  renamed_user original username next =
      if not (is_empty original) && not (equal_fold original username)
      then unless_refused w next (without_user w.load_location w.url_parse original next)
      else next

  unfoldable pub handle_admin_save_user : Moment → Form → Site → Reply × Site
  handle_admin_save_user m f s =
      commit w m
        (then_rename w
          (renamed_user (form_get (text "original_username") f) (form_get (text "username") f))
          (with_user w.load_location w.url_parse (user_of_form f s.cfg) s.cfg))
        true (text "/admin#access") (text "/admin#access") (text "/admin?saved=access") s

  abbrev pub is_own : Option Session → Text → Bool
  is_own none username = false
  is_own (some sess) username = equal_fold sess.username username

  unfoldable pub handle_admin_delete_user : Moment → Option Text → Form → Site → Reply × Site
  handle_admin_delete_user m cookie f s =
      let username = form_get (text "username") f in
      let found = current_session m admin_ui cookie s in
      if is_own found.0 username
      then (
        complains (text "/admin#access") (says (text "you can't revoke your own account")),
        found.1,
      )
      else commit w m (without_user w.load_location w.url_parse username s.cfg) true
          (text "/admin#access") (text "/admin#access") (text "/admin?saved=access") found.1

  -- The page of the secret is shown again after a wrong code; `asks_again` has the secret.
  unfoldable pub handle_totp_enable_submit :
      Moment → RoleUi → Option Text → Form → Site → Reply × Site
  handle_totp_enable_submit m ui cookie f s =
      let found = current_session m ui cookie s in
      let secret = form_get (text "secret") f in
      elim found.0 [
        | none ↦ (redirects ui.login_path, found.1)
        | some sess ↦
            if not (w.verify_totp secret (form_get (text "code") f) m.now)
            then (asks_again secret, found.1)
            else (elim (user_by_username s.cfg sess.username) [
              | none ↦ (redirects ui.login_path, found.1)
              | some existing ↦
                  commit w m
                    (with_user w.load_location w.url_parse
                      (record existing { totp_secret = secret }) s.cfg)
                    true (ui.home_path ++ text "#security") (ui.home_path ++ text "#security")
                    (if text_eq ui.role role_admin
                      then text "/admin?saved=security#security"
                      else ui.home_path)
                    found.1
            ])
      ]

  unfoldable pub handle_totp_disable_submit : Moment → Option Text → Form → Site → Reply × Site
  handle_totp_disable_submit m cookie f s =
      let found = current_session m admin_ui cookie s in
      elim found.0 [
        | none ↦ (redirects admin_ui.login_path, found.1)
        | some sess ↦
            if two_factor_required s.cfg.auth
            then (
              complains (text "/admin#security")
                  (says (text "2FA is required for every account, so it can't be turned off.")),
              found.1,
            )
            else (let existing = user_or_zero (user_by_username s.cfg sess.username) in
                if is_empty existing.totp_secret
                  || not (w.verify_totp existing.totp_secret (form_get (text "code") f) m.now)
                then (complains (text "/admin#security") (says (text "incorrect code")), found.1)
                else commit w m
                    (with_user w.load_location w.url_parse (record existing { totp_secret = [] })
                      s.cfg)
                    true (text "/admin#security") (text "/admin#security")
                    (text "/admin?saved=security#security") found.1)
      ]
