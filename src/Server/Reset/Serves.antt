-- ===== src/Server/Reset/Serves.antt =====
-- What the password reset by mail keeps.
use re_terminal_eink_signage.Base.{
  refl, ◌⊎◌, inl, inr, Bool, true, false, not, Option, none, some, Text, ltb, is_empty, length,
  Option-cases, Bool-cases,
}
use re_terminal_eink_signage.Config.Types.{Config, User, user_by_username}
use re_terminal_eink_signage.Config.Checks.{ConfigError}
use re_terminal_eink_signage.Auth.Tokens.{take}
use re_terminal_eink_signage.Server.Site.{World, Moment, PersistError, Site}
use re_terminal_eink_signage.Server.Site.Coherent.{Coherent, Fits, apply_config-Coherent}
use re_terminal_eink_signage.Server.Site.Saves.{Unchanged, Applies, apply_config-Applies}
use re_terminal_eink_signage.Server.Site.Serves.{Serves, alike-Coherent}
use re_terminal_eink_signage.Server.Site.Fits.{with_user-Fits}
use re_terminal_eink_signage.Server.Reset.{
  send_reset_email, mailed, renewed, finished, handle_forgot_password_submit,
  handle_reset_with_token_submit,
}

module _ (w : World) (m : Moment) where
  send_reset_email-alike : (u : User) (s : Site) → Unchanged s (send_reset_email w m u s)
  unfolding send_reset_email
  send_reset_email-alike u s = elim (Option-cases m.drawn) [
    | inl e ↦ rw (send_reset_email, e) (refl, refl, refl, refl)
    | inr (token, e) ↦ rw (send_reset_email, e) (refl, refl, refl, refl)
  ]

  mailed-alike :
      (may : Bool) (account : Option User) (s : Site) → Unchanged s (mailed w m may account s)
  unfolding mailed
  mailed-alike false account s = (refl, refl, refl, refl)
  mailed-alike true none s = (refl, refl, refl, refl)
  mailed-alike true (some u) s = elim (Bool-cases (not (is_empty u.email))) [
    | inl e ↦ rw (mailed, e) (send_reset_email-alike u s)
    | inr e ↦ rw (mailed, e) (refl, refl, refl, refl)
  ]

  pub forgot_password-Serves :
      (username addr : Text) (s : Site)
      → Coherent s
      → Serves w s (handle_forgot_password_submit w m username addr s)
  unfolding handle_forgot_password_submit
  forgot_password-Serves username addr s c =
      elim (Bool-cases (not s.cfg.auth.password_reset.enabled)) [
        | inl e ↦ rw (handle_forgot_password_submit, e) (c, inl (refl, refl, refl, refl))
        | inr e ↦
            rw (handle_forgot_password_submit, e)
              (alike-Coherent s _ (mailed-alike _ _ _) c, inl (mailed-alike _ _ _))
      ]

  finished-Serves :
      (username : Text) (s : Site) (r : Option PersistError × Site)
      → Coherent r.1
      → Applies w m s r
      → Serves w s (finished w m username r)
  unfolding finished
  finished-Serves username s (some e, t) c a = (c, inl a)
  finished-Serves username s (none, t) c b =
      (alike-Coherent t _ (refl, refl, refl, refl) c, inr (b, refl))

  renewed-Serves :
      (username : Text) (edited : ConfigError ⊎ Config) (s : Site)
      → Fits true s.cfg edited
      → Coherent s
      → Serves w s (renewed w m username edited s)
  unfolding renewed
  renewed-Serves username (inl e) s f c = (c, inl (refl, refl, refl, refl))
  renewed-Serves username (inr next) s f c =
      finished-Serves username s _ (apply_config-Coherent w m next true s f c)
        (apply_config-Applies w m next true s)

  pub reset_with_token-Serves :
      (token password : Text) (s : Site)
      → Coherent s
      → Serves w s (handle_reset_with_token_submit w m token password s)
  unfolding handle_reset_with_token_submit
  reset_with_token-Serves token password s c =
      let taken = take m.now token s.reset_tokens in
      let left : Site = record s { reset_tokens = taken.1 } in
      let c' = alike-Coherent s left (refl, refl, refl, refl) c in
      elim (Bool-cases (not s.cfg.auth.password_reset.enabled)) [
        | inl e ↦ rw (handle_reset_with_token_submit, e) (c, inl (refl, refl, refl, refl))
        | inr e ↦ elim (Option-cases taken.0) [
          | inl g ↦ rw (handle_reset_with_token_submit, e, g) (c', inl (refl, refl, refl, refl))
          | inr (rt, g) ↦ elim (Bool-cases (ltb (length password) 8)) [
            | inl h ↦
                rw (handle_reset_with_token_submit, e, g, h) (c', inl (refl, refl, refl, refl))
            | inr h ↦ elim (Option-cases (user_by_username s.cfg rt.username)) [
              | inl i ↦
                  rw (handle_reset_with_token_submit, e, g, h, i) (c', inl (refl, refl, refl, refl))
              | inr (u, i) ↦
                  rw (handle_reset_with_token_submit, e, g, h, i)
                    (renewed-Serves rt.username _ left (with_user-Fits w _ s.cfg) c')
            ]
          ]
        ]
      ]
