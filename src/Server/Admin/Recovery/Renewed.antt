-- ===== src/Server/Admin/Recovery/Renewed.antt =====
-- What an administrator's reset of a password has done.
use re_terminal_eink_signage.Base.{
  ℕ, ◌+◌, ◌<◌, ◌≡◌, refl, sym, ap, ◌∙◌, inl, inr, Bool, true, not, Option, some, [], arith, All,
  Ascii, length, Text, text, is_empty, equal_fold, Option-cases, le→leb,
}
use re_terminal_eink_signage.Config.Types.{Config, User, user_by_username}
use re_terminal_eink_signage.Config.Edits.{with_user}
use re_terminal_eink_signage.Config.Edits.Logins.{
  AsciiNames, find_user-lower, set_password, verify-with_user,
}
use re_terminal_eink_signage.Auth.Credentials.{verify}
use re_terminal_eink_signage.Auth.Sessions.{check}
use re_terminal_eink_signage.Auth.Sessions.Unique.{Unique, kept}
use re_terminal_eink_signage.Auth.Sessions.Revocation.{check-revoke_by_username}
use re_terminal_eink_signage.Auth.Tokens.{password_reset_ttl, take}
use re_terminal_eink_signage.Auth.Tokens.SingleUse.{take-put}
use re_terminal_eink_signage.Server.Forms.{Form, form_get}
use re_terminal_eink_signage.Server.Site.{
  World, Moment, Site, Reply, redirects, complains, answers, asks_again, commit,
}
use re_terminal_eink_signage.Server.Site.Committed.{Live, commit-redirects}
use re_terminal_eink_signage.Server.Admin.Recovery.{
  when_saved, revoked, reveal, give_password, handle_admin_reset_password,
}

when_saved-redirects :
    (w : World) (m : Moment) (username : Text) (f : Site → Reply × Site) (r : Reply × Site)
    (to : Text)
    → (when_saved w m username f r).0 ≡ redirects to
    → (from : Text) × (r.0 ≡ redirects from)
      × (when_saved w m username f r ≡ f (revoked w m username r.1))
unfolding when_saved
when_saved-redirects w m username f (redirects from, t) to h = (from, refl, refl)
when_saved-redirects w m username f (complains at e, t) to h = cc
when_saved-redirects w m username f (answers n, t) to h = cc
when_saved-redirects w m username f (asks_again x, t) to h = cc

module _ (w : World)
    (digest : (t : Text) → (length (w.sha256 t) ≡ 32) × All (λ b. b < 256) (w.sha256 t))
    (m : Moment) (f : Form) (s : Site) (password nonce to : Text) (drawn : m.drawn ≡ some password)
    (drawn_nonce : m.drawn_nonce ≡ some nonce) where
  abbrev name : Text
  name = form_get (text "username") f

  abbrev saved : User → Reply × Site
  saved u =
      commit w m
        (with_user w.load_location w.url_parse (set_password w.sha256 u password true) s.cfg) true
        (text "/admin#access") (text "/admin#access") [] s

  give_password-drawn :
      (u : User) (p n : Option Text)
      → p ≡ some password
      → n ≡ some nonce
      → give_password w m name u p n s
        ≡ when_saved w m name (reveal w m name password nonce) (saved u)
  unfolding give_password
  give_password-drawn u p n e e' = rw (e, e') refl

  -- The account, the configuration with its new password, and the site on which the page is shown.
  reset_done :
      (handle_admin_reset_password w m f s).0 ≡ redirects to
      → (u : User) × (user_by_username s.cfg name ≡ some u)
        × (next : Config) × (with_user w.load_location w.url_parse
              (set_password w.sha256 u password true)
              s.cfg
            ≡ inr next)
        × (t : Site) × Live next s t
        × (handle_admin_reset_password w m f s
            ≡ reveal w m name password nonce (revoked w m name t))
  unfolding handle_admin_reset_password
  reset_done h = elim (Option-cases (user_by_username s.cfg name)) [
    | inl e ↦ let refused = rw (handle_admin_reset_password, e) at h in absurd cc
    | inr (u, e) ↦
        let given = give_password-drawn u m.drawn m.drawn_nonce drawn drawn_nonce in
        let answered = ap (λ r. r.0) (sym given) ∙ (rw (handle_admin_reset_password, e) at h) in
        let (from, done, same) =
          when_saved-redirects w m name (reveal w m name password nonce) (saved u) to answered in
        let (next, edited, live) = commit-redirects w m _ _ _ _ from s done in
        (u, e, next, edited, (saved u).1, live, rw (handle_admin_reset_password, e) (given ∙ same))
  ]

  -- SHA-256 gives 32 bytes, and the accounts' names and the form's are in ASCII. When an administrator's reset of a password is answered by the page that
  -- shows it, the account exists; the password that was drawn is then the account's, whose next login
  -- has to change it; the page finds it under the nonce; and, in a session store with distinct keys,
  -- the sessions of the account, in any case of its name, have ended, and no others.
  pub reset_password_lem :
      (handle_admin_reset_password w m f s).0 ≡ redirects to
      → Unique s.sessions.m
      → AsciiNames s.cfg.users
      → Ascii (form_get (text "username") f)
      → (u : User) × (user_by_username s.cfg (form_get (text "username") f) ≡ some u)
        × (verify w.sha256
              (handle_admin_reset_password w m f s).1.directory
              (form_get (text "username") f)
              password
            ≡ some (record {
              role = u.role;
              must_change_password = true;
              totp_enabled = not (is_empty u.totp_secret);
            }))
        × ((take m.now nonce (handle_admin_reset_password w m f s).1.resets).0
            ≡ some (record {
              username = form_get (text "username") f;
              password = password;
              expires = m.now + password_reset_ttl;
            }))
        × ((token : Text) (later : ℕ) (written : Bool)
            → m.now < later
            → (check w.key token later written (handle_admin_reset_password w m f s).1.sessions).0
              ≡ kept
                  (λ session. equal_fold session.username (form_get (text "username") f))
                  (check w.key token later written s.sessions).0)
  unfolding user_by_username reveal
  reset_password_lem h unique names ascii =
      let (u, e, next, edited, t, (live, logins, sessions, resets), done) = reset_done h in
      let named = find_user-lower name s.cfg.users u names ascii e in
      (
        u,
        e,
        rw (done, logins)
            (verify-with_user w.sha256 w.load_location w.url_parse digest u s.cfg next name password
              true edited named),
        rw done (
            (take-put nonce _ m.now m.now _).0
            ∙ rw (le→leb m.now (m.now + password_reset_ttl) (omega arith)) refl),
        λ token later written before.
            rw (done, sessions)
              (check-revoke_by_username w.key token m.now later m.written written s.sessions unique
                before name),
      )
