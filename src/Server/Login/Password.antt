-- ===== src/Server/Login/Password.antt =====
-- A login after a change of password: handleChangePasswordSubmit of
-- backend/internal/server/login.go.
use re_terminal_eink_signage.Base.{
  ◌≡◌, ◌<◌, ◌||◌, ◌⊎◌, inl, inr, true, false, not, Option, some, [], refl, arith, length, All,
  Bool-cases, Option-cases, Ascii, Text, text_eq, text_eq_iff, is_empty,
}
use re_terminal_eink_signage.Config.Types.{Config, User, user_by_username}
use re_terminal_eink_signage.Config.Edits.{with_user}
use re_terminal_eink_signage.Config.Edits.Logins.{
  set_password, AsciiNames, find_user-lower, edited-cases, verify-with_user,
}
use re_terminal_eink_signage.Auth.Credentials.{directory_of, verify}
use re_terminal_eink_signage.Auth.Sessions.{Session}
use re_terminal_eink_signage.Server.Gate.{RoleUi}
use re_terminal_eink_signage.Server.Site.{
  World, Moment, Site, PersistError, applied_by, persist_first, apply_config, refresh_derived,
}
use re_terminal_eink_signage.Server.Login.{
  signs_in, door_session, live_anyway, handle_change_password_submit,
}

live_anyway-directory :
    (w : World) (m : Moment) (next : Config) (s : Site)
    → (live_anyway next (apply_config w m next true s)).directory ≡ directory_of next.users []
unfolding live_anyway applied_by apply_config refresh_derived
live_anyway-directory w m next s = by_cases (persist_first w m next s.saved)
  where
    by_cases :
        (p : (PersistError × Option Text) ⊎ Option Text)
        → (live_anyway next (applied_by w m p next true s)).directory ≡ directory_of next.users []
    by_cases (inl (e, left)) = refl
    by_cases (inr out) = refl

module _ (w : World)
    (digest : (t : Text) → (length (w.sha256 t) ≡ 32) × All (λ b. b < 256) (w.sha256 t)) where
  -- SHA-256 gives 32 bytes, and the accounts' names and the session's are in ASCII. When the change
  -- of a password signs its session in again, whether or not the new configuration could be saved, the password was not empty and was confirmed, the session's
  -- account exists, and from then on a login with the session's name and the new password is
  -- accepted: with the account's role, with a second factor exactly if the account has one, and with
  -- no password left to change.
  pub change_password-verify :
      (m : Moment) (ui : RoleUi) (cookie : Option Text) (password confirm token : Text) (s : Site)
      (sess : Session) (role given next : Text)
      → AsciiNames s.cfg.users
      → Ascii sess.username
      → (door_session w.key ui cookie m.now m.written s.sessions).0 ≡ some sess
      → (handle_change_password_submit w m ui cookie password confirm token s).0
        ≡ signs_in role given next
      → (is_empty password ≡ false)
        × (password ≡ confirm)
        × (u : User) × (user_by_username s.cfg sess.username ≡ some u)
        × (verify w.sha256
              (handle_change_password_submit w m ui cookie password confirm token s).1.directory
              sess.username
              password
            ≡ some (record {
              role = u.role;
              must_change_password = false;
              totp_enabled = not (is_empty u.totp_secret);
            }))
  unfolding handle_change_password_submit user_by_username apply_config refresh_derived
  change_password-verify m ui cookie password confirm token s sess role given next names ascii found
        h =
      elim (Bool-cases (is_empty password || not (text_eq password confirm))) [
        | inl bad ↦ let refused = rw (handle_change_password_submit, found, bad) at h in absurd cc
        | inr good ↦ elim (Option-cases (user_by_username s.cfg sess.username)) [
          | inl e ↦
              let refused = rw (handle_change_password_submit, found, good, e) at h in absurd cc
          | inr (u, e) ↦
              let named = find_user-lower sess.username s.cfg.users u names ascii e in
              elim (edited-cases (
                with_user w.load_location w.url_parse (set_password w.sha256 u password false)
                  s.cfg)) [
                    | inl (err, f) ↦
                        let refused = rw (handle_change_password_submit, found, good, e, f) at h in
                        absurd cc
                    | inr (c, f) ↦ (
                      ground (arith, good),
                      ground (arith, good, text_eq_iff password confirm),
                      u,
                      e,
                      rw (handle_change_password_submit, found, good, e, f)
                          (rw
                            (live_anyway-directory w m c (record s {
                              sessions =
                                  (door_session w.key ui cookie m.now m.written s.sessions).1;
                            }))
                            (verify-with_user w.sha256 w.load_location w.url_parse digest u s.cfg c
                              sess.username password false f named)),
                    )
                  ]
        ]
      ]
