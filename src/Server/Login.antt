-- ===== src/Server/Login.antt =====
-- The handlers of backend/internal/server/login.go that open, change and end sessions. A handler is
-- given the form's fields, the token that it would draw, the time, and whether the session file is
-- written; a form is one that could be parsed.
pub mod Kept
pub mod Password
pub mod SecondFactor
use re_terminal_eink_signage.Base.{
  encode_hex, true, inl, inr, text_eq, ℕ, Bool, false, not, ◌||◌, Option, none, some, List, [],
  if◌then◌else◌, Text, is_empty,
}
use re_terminal_eink_signage.Config.Types.{Config, user_by_username}
use re_terminal_eink_signage.Auth.{satisfies}
use re_terminal_eink_signage.Auth.Credentials.{Directory, verify}
use re_terminal_eink_signage.Auth.Sessions.{Session, SessionFlags, Store, create, check, revoke}
use re_terminal_eink_signage.Config.Edits.{with_user}
use re_terminal_eink_signage.Server.Gate.{RoleUi, viewer_ui}
use re_terminal_eink_signage.Server.Site.{
  World, Moment, PersistError, Site, apply_config, refresh_derived,
}

-- A redirect; `signs_in` also sets the cookies of every door that the role satisfies to the token.
-- `bounces` has the query `error=1`, and the path to go on to if it is not empty.
pub data Answer : Type 0 where
  goes_to : Text → Answer
  bounces : Text → Text → Answer
  signs_in : Text → Text → Text → Answer

abbrev pub no_flags : SessionFlags
no_flags = record { must_change_password = false; pending_2fa = false }

module _ (key : Text → Text) where
  -- The session of a door's cookie, and the store after its `Check`.
  unfoldable pub door_session : RoleUi → Option Text → ℕ → Bool → Store → Option Session × Store
  door_session ui none now written s = (none, s)
  door_session ui (some token) now written s =
      let found = check key token now written s in
      (
        elim found.0 [
          | none ↦ none
          | some sess ↦ (if satisfies sess.role ui.role then some sess else none)
        ],
        found.1,
      )

  -- `Revoke` of the cookie's token, then `Create`.
  unfoldable pub reissue : Option Text → Text → Session → SessionFlags → ℕ → Bool → Store → Store
  reissue none token sess flags now written s =
      create key token sess.role sess.username flags now written s
  reissue (some old) token sess flags now written s =
      create key token sess.role sess.username flags now written (revoke key old now written s)

  unfoldable pub handle_login_submit :
      (Text → List ℕ)
      → Directory
      → RoleUi
      → Text
      → Text
      → Text
      → Text
      → ℕ
      → Bool
      → Store
      → Answer × Store
  handle_login_submit sha256 directory ui username password next token now written s =
      elim (verify sha256 directory username password) [
        | none ↦ (bounces ui.login_path next, s)
        | some r ↦
            (if not (satisfies r.role ui.role) then (bounces ui.login_path next, s) else (
              signs_in r.role token (
                  if r.must_change_password
                  then ui.change_password_path
                  else (if r.totp_enabled
                      then ui.totp_verify_path
                      else (if not (is_empty next) then next else viewer_ui.home_path))),
              create key token r.role username
                  (record {
                    must_change_password = r.must_change_password;
                    pending_2fa = r.totp_enabled;
                  })
                  now written s,
            ))
      ]

  unfoldable pub handle_logout : RoleUi → Option Text → ℕ → Bool → Store → Answer × Store
  handle_logout ui none now written s = (goes_to ui.login_path, s)
  handle_logout ui (some token) now written s =
      (goes_to ui.login_path, revoke key token now written s)

  unfoldable pub handle_totp_verify_submit :
      (Text → Text → ℕ → Bool)
      → Config
      → RoleUi
      → Option Text
      → Text
      → Text
      → ℕ
      → Bool
      → Store
      → Answer × Store
  handle_totp_verify_submit verify_totp cfg ui cookie code token now written s =
      let found = door_session ui cookie now written s in
      elim found.0 [
        | none ↦ (goes_to ui.login_path, found.1)
        | some sess ↦ elim (user_by_username cfg sess.username) [
          | none ↦ (bounces ui.totp_verify_path [], found.1)
          | some u ↦
              (if is_empty u.totp_secret || not (verify_totp u.totp_secret code now)
                then (bounces ui.totp_verify_path [], found.1)
                else (
                  signs_in sess.role token viewer_ui.home_path,
                  reissue cookie token sess no_flags now written found.1,
                ))
        ]
      ]

-- The configuration is made live also if `applyConfig` could not save it.
unfoldable pub live_anyway : Config → Option PersistError × Site → Site
live_anyway next (none, s) = s
live_anyway next (some e, s) = refresh_derived next (record s { cfg = next })

unfoldable pub handle_change_password_submit :
    World → Moment → RoleUi → Option Text → Text → Text → Text → Site → Answer × Site
handle_change_password_submit w m ui cookie password confirm token s =
    let found = door_session w.key ui cookie m.now m.written s.sessions in
    let checked : Site = record s { sessions = found.1 } in
    elim found.0 [
      | none ↦ (goes_to ui.login_path, checked)
      | some sess ↦
          if is_empty password || not (text_eq password confirm)
          then (bounces ui.change_password_path [], checked)
          else elim (user_by_username s.cfg sess.username) [
            | none ↦ (goes_to ui.login_path, checked)
            | some existing ↦
                elim (with_user w.load_location w.url_parse
                  (record existing {
                    password_sha256 = encode_hex (w.sha256 password);
                    must_change_password = false;
                  })
                  s.cfg) [
                    | inl e ↦ (bounces ui.change_password_path [], checked)
                    | inr new_cfg ↦
                        let live = live_anyway new_cfg (apply_config w m new_cfg true checked) in
                        (
                          signs_in sess.role token (
                              if sess.flags.pending_2fa
                              then ui.totp_verify_path
                              else viewer_ui.home_path),
                          record live {
                            sessions =
                                reissue w.key cookie token sess
                                  (record {
                                    must_change_password = false;
                                    pending_2fa = sess.flags.pending_2fa;
                                  })
                                  m.now m.written live.sessions;
                          },
                        )
                  ]
          ]
    ]
