-- ===== src/Server/Admin/Accounts/Renamed.antt =====
-- An account that is given another name and loses the administrators' role.
use re_terminal_eink_signage.Base.{
  ◌≡◌, refl, sym, ap, ◌∙◌, ◌⊎◌, inl, inr, Bool, true, false, not, some, any, keep_if, Text, text,
  equal_fold, if◌then◌else◌, equal_fold_sym, equal_fold_refl,
}
use re_terminal_eink_signage.Config.Types.{Config, User, user_by_username}
use re_terminal_eink_signage.Config.Checks.{ConfigError}
use re_terminal_eink_signage.Config.WellFormed.{is_admin, validate-IsWellFormed}
use re_terminal_eink_signage.Config.Edits.{validated-inr, validated-valid, with_user, without_user}
use re_terminal_eink_signage.Config.Edits.Lookups.{
  sets_user, removes_user, user_after, edit_user, user_by_username-edit_user,
}
use re_terminal_eink_signage.Config.Edits.Logins.{edited-cases, find_user-some}
use re_terminal_eink_signage.Server.Forms.{Form, form_get}
use re_terminal_eink_signage.Server.Site.{World, Moment, Site, redirects}
use re_terminal_eink_signage.Server.Site.Committed.{commit-redirects}
use re_terminal_eink_signage.Server.Admin.Settings.{unless_refused, then_rename}
use re_terminal_eink_signage.Server.Admin.Accounts.{
  user_of_form, renamed_user, handle_admin_save_user,
}

inr_injective : {c d : Config} → ◌≡◌ {A = ConfigError ⊎ Config} (inr c) (inr d) → c ≡ d
inr_injective h = cc

module _ (w : World) (m : Moment) (f : Form) (s : Site) (old : User) (next : Config)
    (to : Text) where
  abbrev original : Text
  original = form_get (text "original_username") f

  abbrev username : Text
  username = form_get (text "username") f

  -- The new name finds the account of the form.
  renamed-found :
      with_user w.load_location w.url_parse (user_of_form w f s.cfg) s.cfg ≡ inr next
      → user_by_username next username ≡ some (user_of_form w f s.cfg)
  unfolding edit_user user_after user_of_form
  renamed-found edited = rw (equal_fold_refl username) at (
      user_by_username-edit_user w.load_location w.url_parse (sets_user (user_of_form w f s.cfg))
        s.cfg next username edited)

  -- The old name finds what it found before.
  original-found :
      with_user w.load_location w.url_parse (user_of_form w f s.cfg) s.cfg ≡ inr next
      → equal_fold original username ≡ false
      → user_by_username next original ≡ user_by_username s.cfg original
  unfolding edit_user user_after user_of_form
  original-found edited differ =
      let other : equal_fold username original ≡ false =
        equal_fold_sym username original ∙ differ in
      rw other at (
        user_by_username-edit_user w.load_location w.url_parse (sets_user (user_of_form w f s.cfg))
          s.cfg next original edited)

  -- No account but the old one is an administrator's, so its removal is refused.
  no_admin_left :
      (left : Config)
      → with_user w.load_location w.url_parse (user_of_form w f s.cfg) s.cfg ≡ inr next
      → equal_fold original username ≡ false
      → any is_admin (keep_if (λ u. not (equal_fold u.username original)) next.users) ≡ false
      → without_user w.load_location w.url_parse original next ≡ inr left
      → ⊥
  unfolding edit_user user_after without_user user_by_username
  no_admin_left left edited differ none_left accepted =
      let (same, _) = validated-inr w.load_location w.url_parse _ left accepted in
      let (_, _, _, accounts, _) =
        validate-IsWellFormed w.load_location w.url_parse left
          (validated-valid w.load_location w.url_parse _ left accepted) in
      let kept = rw differ at (
        user_by_username-edit_user w.load_location w.url_parse (removes_user original) next left
          username accepted) in
      let some_user = find_user-some left.users username _ (kept ∙ renamed-found edited) in
      let admin = (accounts some_user).2 in
      let none_left' = ap (λ (c : Config). any is_admin c.users) (sym same) ∙ none_left in
      absurd (cc)

  removal_refused :
      with_user w.load_location w.url_parse (user_of_form w f s.cfg) s.cfg ≡ inr next
      → equal_fold original username ≡ false
      → any is_admin (keep_if (λ u. not (equal_fold u.username original)) next.users) ≡ false
      → renamed_user w original username next ≡ next
  unfolding renamed_user
  removal_refused edited differ none_left =
      elim (edited-cases (without_user w.load_location w.url_parse original next)) [
        | inl (e, refused) ↦ by_test _ e refused
        | inr (left, accepted) ↦ absurd (no_admin_left left edited differ none_left accepted)
      ]
    where
      by_test :
          (b : Bool) (e : ConfigError)
          → without_user w.load_location w.url_parse original next ≡ inl e
          → (if b
              then unless_refused w next (without_user w.load_location w.url_parse original next)
              else next)
            ≡ next
      by_test true e refused = rw refused refl
      by_test false e refused = refl

  -- When the form gives an account another name, and no other account would be an administrator's:
  -- if the page says that it is saved, the old account is still there, with its password and its
  -- role, beside the renamed one.
  pub rename_keeps_old :
      with_user w.load_location w.url_parse (user_of_form w f s.cfg) s.cfg ≡ inr next
      → user_by_username s.cfg (form_get (text "original_username") f) ≡ some old
      → equal_fold (form_get (text "original_username") f) (form_get (text "username") f) ≡ false
      → any is_admin (
          keep_if
            (λ u. not (equal_fold u.username (form_get (text "original_username") f)))
            next.users)
        ≡ false
      → (handle_admin_save_user w m f s).0 ≡ redirects to
      → (user_by_username
            (handle_admin_save_user w m f s).1.cfg
            (form_get (text "original_username") f)
          ≡ some old)
        × (user_by_username (handle_admin_save_user w m f s).1.cfg (form_get (text "username") f)
            ≡ some (user_of_form w f s.cfg))
  unfolding handle_admin_save_user edit_user user_after
  rename_keeps_old edited had differ none_left h =
      let (final, is, live) = commit-redirects w m _ _ _ _ to s h in
      let same =
        inr_injective (ap (then_rename w (renamed_user w original username)) (sym edited) ∙ is) in
      let end = live.0 ∙ sym same ∙ removal_refused edited differ none_left in
      let before = original-found edited differ in
      (
        ap (λ c. user_by_username c original) end ∙ before ∙ had,
        ap (λ c. user_by_username c username) end ∙ renamed-found edited,
      )
