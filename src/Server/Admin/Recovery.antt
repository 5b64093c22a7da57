-- ===== src/Server/Admin/Recovery.antt =====
-- What an administrator does for the owner of an account: handleAdminResetPassword and
-- handleAdminReset2FA of backend/internal/server/password_reset.go.
pub mod Renewed
use re_terminal_eink_signage.Base.{
  ◌+◌, true, Option, none, some, [], ◌++◌, if◌then◌else◌, Text, text, is_empty, equal_fold,
  encode_hex,
}
use re_terminal_eink_signage.Config.Types.{User, user_by_username}
use re_terminal_eink_signage.Config.Edits.{with_user}
use re_terminal_eink_signage.Auth.Sessions.{revoke_by_username}
use re_terminal_eink_signage.Auth.Tokens.{password_reset_ttl, put}
use re_terminal_eink_signage.Server.Forms.{Form, form_get}
use re_terminal_eink_signage.Server.Site.{
  World, Moment, Site, Reply, redirects, complains, answers, says, own_second_factor, commit,
}
use re_terminal_eink_signage.Server.Admin.Accounts.{session_username}

module _ (w : World) where
  -- What follows a change that was saved: the account's sessions end.
  abbrev pub revoked : Moment → Text → Site → Site
  revoked m username s = record s {
    sessions = revoke_by_username username m.now m.written s.sessions;
  }

  unfoldable pub when_saved : Moment → Text → (Site → Reply × Site) → Reply × Site → Reply × Site
  when_saved m username f (redirects to, s) = f (revoked m username s)
  when_saved m username f (r, s) = (r, s)

  -- The page that shows the new password once, and the page after a second factor is cleared, where
  -- the log names the session that did it.
  unfoldable pub reveal : Moment → Text → Text → Text → Site → Reply × Site
  reveal m username password nonce live = (
    redirects (text "/admin?reset=" ++ nonce ++ text "#access"),
    record live {
      resets =
          put m.now nonce
            (record {
              username = username;
              password = password;
              expires = m.now + password_reset_ttl;
            })
            live.resets;
    },
  )

  unfoldable pub cleared : Moment → Option Text → Site → Reply × Site
  cleared m cookie live =
      (redirects (text "/admin?saved=access"), (session_username w m cookie live).1)

  -- The new password can be seen once, under the nonce. Both are drawn before anything is changed.
  unfoldable pub give_password :
      Moment → Text → User → Option Text → Option Text → Site → Reply × Site
  give_password m username existing none drawn_nonce s = (answers 500, s)
  give_password m username existing (some password) none s = (answers 500, s)
  give_password m username existing (some password) (some nonce) s =
      when_saved m username (reveal m username password nonce) (
        commit w m
          (with_user w.load_location w.url_parse
            (record existing {
              password_sha256 = encode_hex (w.sha256 password);
              must_change_password = true;
            })
            s.cfg)
          true (text "/admin#access") (text "/admin#access") [] s)

  unfoldable pub handle_admin_reset_password : Moment → Form → Site → Reply × Site
  handle_admin_reset_password m f s =
      let username = form_get (text "username") f in
      elim (user_by_username s.cfg username) [
        | none ↦ (complains (text "/admin#access") (says (text "no such user " ++ username)), s)
        | some existing ↦ give_password m username existing m.drawn m.drawn_nonce s
      ]

  unfoldable pub handle_admin_reset_2fa : Moment → Option Text → Form → Site → Reply × Site
  handle_admin_reset_2fa m cookie f s =
      let username = form_get (text "username") f in
      let own = session_username w m cookie s in
      if equal_fold username own.0
      then (complains (text "/admin#access") own_second_factor, own.1)
      else (elim (user_by_username s.cfg username) [
        | none ↦ (complains (text "/admin#access") (says (text "no such user " ++ username)), own.1)
        | some existing ↦
            if is_empty existing.totp_secret
            then (
              complains (text "/admin#access") (says (username ++ text " has no 2FA set up.")),
              own.1,
            )
            else when_saved m username (cleared m cookie) (
                commit w m
                  (with_user w.load_location w.url_parse (record existing { totp_secret = [] })
                    s.cfg)
                  true (text "/admin#access") (text "/admin#access") [] own.1)
      ])
