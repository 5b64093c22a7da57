-- ===== src/Server/Reset.antt =====
-- The password reset by mail: the handlers of backend/internal/server/forgot_password.go. The mail
-- relay is not modelled: a mail that cannot be sent is only logged. A page for a new password is
-- `asks_again` with the token that its form sends, or with none next to an error.
pub mod Serves
pub mod Links
use re_terminal_eink_signage.Base.{
  ◌+◌, Bool, true, false, not, ◌&&◌, ◌⊎◌, inl, inr, Option, none, some, [], ◌++◌, ltb, ◌==◌, any,
  ◌∷◌, if◌then◌else◌, length, Text, text, is_empty, lower, encode_hex,
}
use re_terminal_eink_signage.Config.Types.{Config, User, user_by_username}
use re_terminal_eink_signage.Config.Checks.{ConfigError}
use re_terminal_eink_signage.Config.Edits.{with_user}
use re_terminal_eink_signage.Auth.Sessions.{revoke_by_username}
use re_terminal_eink_signage.Auth.Tokens.{
  reset_token_ttl, forgot_password_rate_limit, forgot_password_rate_window, put, peek, take, allow,
}
use re_terminal_eink_signage.Server.Gate.{viewer_ui}
use re_terminal_eink_signage.Server.Site.{
  World, Moment, PersistError, Site, Reply, redirects, answers, asks_again, apply_config,
}

-- `splitRemoteAddr`: what stands before the last colon, or all of it.
unfoldable pub before_last_colon : Text → Text
before_last_colon [] = []
before_last_colon (c ∷ t) = if any (λ d. d == 58) t then c ∷ before_last_colon t else []

unfoldable pub remote_host : Text → Text
unfolding before_last_colon
remote_host addr = if any (λ d. d == 58) addr then before_last_colon addr else addr

module _ (w : World) where
  -- `sendResetEmail`: the token, if one could be drawn, is valid for half an hour.
  unfoldable pub send_reset_email : Moment → User → Site → Site
  send_reset_email m u s = elim m.drawn [
    | none ↦ s
    | some token ↦ record s {
      reset_tokens =
          put m.now token
            (record { username = u.username; password = []; expires = m.now + reset_token_ttl })
            s.reset_tokens;
    }
  ]

  -- The mail of a request within the limits, to an account that has an address.
  unfoldable pub mailed : Moment → Bool → Option User → Site → Site
  mailed m false account s = s
  mailed m true none s = s
  mailed m true (some u) s = if not (is_empty u.email) then send_reset_email m u s else s

  -- Both limits are counted, whatever the first one says.
  unfoldable pub handle_forgot_password_submit : Moment → Text → Text → Site → Reply × Site
  handle_forgot_password_submit m username remote_addr s =
      if not s.cfg.auth.password_reset.enabled
      then (answers 404, s)
      else (let by_user =
            allow (text "user:" ++ lower username) forgot_password_rate_limit
              forgot_password_rate_window m.now s.forgot_password_limiter in
          let by_ip =
            allow (text "ip:" ++ remote_host remote_addr) forgot_password_rate_limit
              forgot_password_rate_window m.now by_user.1 in
          let counted : Site = record s { forgot_password_limiter = by_ip.1 } in
          (
            redirects (text "/forgot-password?sent=1"),
            mailed m (by_user.0 && by_ip.0) (user_by_username s.cfg username) counted,
          ))

  -- The page of a link: its token, or none if the link is of no use.
  unfoldable pub handle_reset_with_token_page : Moment → Text → Site → Reply
  handle_reset_with_token_page m token s =
      if not s.cfg.auth.password_reset.enabled
      then answers 404
      else (elim (peek m.now token s.reset_tokens) [
        | none ↦ asks_again []
        | some r ↦ asks_again token
      ])

  -- What follows the edit: its error, or `applyConfig` and its error, or the account's sessions end.
  unfoldable pub finished : Moment → Text → Option PersistError × Site → Reply × Site
  finished m username (some e, s) = (asks_again [], s)
  finished m username (none, s) = (
    redirects (viewer_ui.login_path ++ text "?reset=1"),
    record s { sessions = revoke_by_username username m.now m.written s.sessions },
  )

  unfoldable pub renewed : Moment → Text → ConfigError ⊎ Config → Site → Reply × Site
  renewed m username (inl e) s = (asks_again [], s)
  renewed m username (inr next) s = finished m username (apply_config w m next true s)

  -- The token is taken before the password is looked at.
  unfoldable pub handle_reset_with_token_submit : Moment → Text → Text → Site → Reply × Site
  handle_reset_with_token_submit m token password s =
      if not s.cfg.auth.password_reset.enabled
      then (answers 404, s)
      else (let taken = take m.now token s.reset_tokens in
          let left : Site = record s { reset_tokens = taken.1 } in
          elim taken.0 [
            | none ↦ (asks_again [], left)
            | some rt ↦
                if ltb (length password) 8
                then (asks_again token, left)
                else (elim (user_by_username s.cfg rt.username) [
                  | none ↦ (redirects viewer_ui.login_path, left)
                  | some u ↦
                      renewed m rt.username
                        (with_user w.load_location w.url_parse
                          (record u {
                            password_sha256 = encode_hex (w.sha256 password);
                            must_change_password = false;
                          })
                          s.cfg)
                        left
                ])
          ])
