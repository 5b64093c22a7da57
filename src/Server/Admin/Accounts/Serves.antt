-- ===== src/Server/Admin/Accounts/Serves.antt =====
-- What the handlers of accounts keep.
use re_terminal_eink_signage.Base.{
  ◌≡◌, refl, inl, inr, true, not, ◌||◌, ◌&&◌, Option, none, some, Text, is_empty, equal_fold,
  Option-cases, Bool-cases, text,
}
use re_terminal_eink_signage.Config.Types.{Config, User, user_by_username, two_factor_required}
use re_terminal_eink_signage.Server.Gate.{RoleUi, admin_ui}
use re_terminal_eink_signage.Server.Forms.{Form, form_get}
use re_terminal_eink_signage.Server.Login.{door_session}
use re_terminal_eink_signage.Server.Site.{
  World, Moment, Site, Reply, redirects, complains, answers, asks_again,
}
use re_terminal_eink_signage.Server.Site.Coherent.{Coherent, Valid}
use re_terminal_eink_signage.Server.Site.Saves.{Unchanged}
use re_terminal_eink_signage.Server.Site.Serves.{
  Serves, Follows, then-Saves, commit-Serves, commit_after, sessions-Coherent, alike-Coherent,
}
use re_terminal_eink_signage.Server.Site.Fits.{with_user-Fits, without_user-Fits}
use re_terminal_eink_signage.Server.Admin.Settings.Serves.{then_rename-Fits, unless_refused-Valid}
use re_terminal_eink_signage.Server.Admin.Accounts.{
  user_or_zero, session_username, is_own, renamed_user, user_of_form, handle_admin_save_user,
  handle_admin_delete_user, handle_totp_enable_submit, handle_totp_disable_submit,
}
use re_terminal_eink_signage.Server.Admin.Recovery.{
  when_saved, revoked, reveal, cleared, give_password, handle_admin_reset_password,
  handle_admin_reset_2fa,
}

module _ (w : World) (m : Moment) where
  renamed_user-Valid :
      (original username : Text) (next : Config)
      → Valid next
      → Valid (renamed_user w original username next)
  unfolding renamed_user
  renamed_user-Valid original username next ok =
      unless_refused-Valid w (not (is_empty original) && not (equal_fold original username)) next _
        ok (without_user-Fits w original next)

  pub save_user-Serves :
      (f : Form) (s : Site) → Coherent s → Serves w s (handle_admin_save_user w m f s)
  unfolding handle_admin_save_user
  save_user-Serves f s c =
      commit-Serves w m _ true _ _ _ s
        (then_rename-Fits w _ s.cfg _ (renamed_user-Valid _ _)
          (with_user-Fits w (user_of_form w f s.cfg) s.cfg))
        c

  pub delete_user-Serves :
      (cookie : Option Text) (f : Form) (s : Site)
      → Coherent s
      → Serves w s (handle_admin_delete_user w m cookie f s)
  unfolding handle_admin_delete_user
  delete_user-Serves cookie f s c =
      let found = door_session w.key admin_ui cookie m.now m.written s.sessions in
      let c' = sessions-Coherent found.1 s c in
      elim (Bool-cases (is_own w found.0 (form_get (text "username") f))) [
        | inl e ↦ rw (handle_admin_delete_user, e) (c', inl (refl, refl, refl, refl))
        | inr e ↦
            rw (handle_admin_delete_user, e)
              (commit-Serves w m _ true _ _ _ (record s { sessions = found.1 })
                (without_user-Fits w _ s.cfg) c')
      ]

  pub totp_enable-Serves :
      (ui : RoleUi) (cookie : Option Text) (f : Form) (s : Site)
      → Coherent s
      → Serves w s (handle_totp_enable_submit w m ui cookie f s)
  unfolding handle_totp_enable_submit
  totp_enable-Serves ui cookie f s c =
      let found = door_session w.key ui cookie m.now m.written s.sessions in
      let c' = sessions-Coherent found.1 s c in
      elim (Option-cases found.0) [
        | inl e ↦ rw (handle_totp_enable_submit, e) (c', inl (refl, refl, refl, refl))
        | inr (sess, e) ↦
            elim (Bool-cases
              (not (w.verify_totp (form_get (text "secret") f) (form_get (text "code") f) m.now))) [
                | inl g ↦ rw (handle_totp_enable_submit, e, g) (c', inl (refl, refl, refl, refl))
                | inr g ↦ elim (Option-cases (user_by_username s.cfg sess.username)) [
                  | inl h ↦
                      rw (handle_totp_enable_submit, e, g, h) (c', inl (refl, refl, refl, refl))
                  | inr (u, h) ↦
                      rw (handle_totp_enable_submit, e, g, h)
                        (commit-Serves w m _ true _ _ _ (record s { sessions = found.1 })
                          (with_user-Fits w _ s.cfg) c')
                ]
              ]
      ]

  pub totp_disable-Serves :
      (cookie : Option Text) (f : Form) (s : Site)
      → Coherent s
      → Serves w s (handle_totp_disable_submit w m cookie f s)
  unfolding handle_totp_disable_submit
  totp_disable-Serves cookie f s c =
      let found = door_session w.key admin_ui cookie m.now m.written s.sessions in
      let c' = sessions-Coherent found.1 s c in
      elim (Option-cases found.0) [
        | inl e ↦ rw (handle_totp_disable_submit, e) (c', inl (refl, refl, refl, refl))
        | inr (sess, e) ↦
            let u = user_or_zero (user_by_username s.cfg sess.username) in
            elim (Bool-cases (two_factor_required s.cfg.auth)) [
              | inl g ↦ rw (handle_totp_disable_submit, e, g) (c', inl (refl, refl, refl, refl))
              | inr g ↦
                  elim (Bool-cases (
                    is_empty u.totp_secret
                    || not (w.verify_totp u.totp_secret (form_get (text "code") f) m.now))) [
                      | inl h ↦
                          rw (handle_totp_disable_submit, e, g, h)
                            (c', inl (refl, refl, refl, refl))
                      | inr h ↦
                          rw (handle_totp_disable_submit, e, g, h)
                            (commit-Serves w m _ true _ _ _ (record s { sessions = found.1 })
                              (with_user-Fits w _ s.cfg) c')
                    ]
            ]
      ]

  when_saved-Serves :
      (username : Text) (s : Site) (f : Site → Reply × Site) (r : Reply × Site)
      → ((t : Site) → Follows t (f (revoked w m username t)))
      → Serves w s r
      → Serves w s (when_saved w m username f r)
  unfolding when_saved
  when_saved-Serves username s f (redirects to, t) k (c, saves) = (
    alike-Coherent t (f (revoked w m username t)).1 (k t).0 c,
    then-Saves w s t to (f (revoked w m username t)) (k t) saves,
  )
  when_saved-Serves username s f (complains at e, t) k h = h
  when_saved-Serves username s f (answers n, t) k h = h
  when_saved-Serves username s f (asks_again x, t) k h = h

  give_password-Serves :
      (username : Text) (u : User) (password drawn_nonce : Option Text) (s : Site)
      → Coherent s
      → Serves w s (give_password w m username u password drawn_nonce s)
  unfolding give_password reveal
  give_password-Serves username u none drawn_nonce s c = (c, inl (refl, refl, refl, refl))
  give_password-Serves username u (some password) none s c = (c, inl (refl, refl, refl, refl))
  give_password-Serves username u (some password) (some nonce) s c =
      when_saved-Serves username s (reveal w m username password nonce) _
        (λ t. ((refl, refl, refl, refl), refl, refl))
        (commit-Serves w m _ true _ _ _ s (with_user-Fits w _ s.cfg) c)

  pub reset_password-Serves :
      (f : Form) (s : Site) → Coherent s → Serves w s (handle_admin_reset_password w m f s)
  unfolding handle_admin_reset_password
  reset_password-Serves f s c =
      elim (Option-cases (user_by_username s.cfg (form_get (text "username") f))) [
        | inl e ↦ rw (handle_admin_reset_password, e) (c, inl (refl, refl, refl, refl))
        | inr (u, e) ↦
            rw (handle_admin_reset_password, e) (give_password-Serves _ u m.drawn m.drawn_nonce s c)
      ]

  -- Reading the session's name changes sessions only.
  pub session_username-alike :
      (cookie : Option Text) (s : Site)
      → Unchanged s (session_username w m cookie s).1
        × ((session_username w m cookie s).1.saved ≡ s.saved)
  unfolding session_username
  session_username-alike none s = ((refl, refl, refl, refl), refl)
  session_username-alike (some token) s = ((refl, refl, refl, refl), refl)

  pub reset_2fa-Serves :
      (cookie : Option Text) (f : Form) (s : Site)
      → Coherent s
      → Serves w s (handle_admin_reset_2fa w m cookie f s)
  unfolding handle_admin_reset_2fa cleared
  reset_2fa-Serves cookie f s c =
      let own = session_username w m cookie s in
      let same = (session_username-alike cookie s).0 in
      let c' = alike-Coherent s own.1 same c in
      let username = form_get (text "username") f in
      elim (Bool-cases (equal_fold username own.0)) [
        | inl e ↦ rw (handle_admin_reset_2fa, e) (c', inl same)
        | inr e ↦ elim (Option-cases (user_by_username s.cfg username)) [
          | inl g ↦ rw (handle_admin_reset_2fa, e, g) (c', inl same)
          | inr (u, g) ↦ elim (Bool-cases (is_empty u.totp_secret)) [
            | inl h ↦ rw (handle_admin_reset_2fa, e, g, h) (c', inl same)
            | inr h ↦
                rw (handle_admin_reset_2fa, e, g, h)
                  (when_saved-Serves username s (cleared w m cookie) _
                    (λ t.
                      let (u', k) = session_username-alike cookie (revoked w m username t) in
                      (u', k, refl))
                    (commit_after w m _ true _ _ _ s own.1 same (with_user-Fits w _ s.cfg) c))
          ]
        ]
      ]
