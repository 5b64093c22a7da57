-- ===== src/Config/Edits/Admins.antt =====
-- Administrators after an edit of accounts.
use re_terminal_eink_signage.Base.{
  ℕ, zero, suc, ◌<◌, ◌≡◌, refl, ap, ◌∙◌, ◌⊎◌, inl, inr, Bool, true, not, Option, none, [], ◌∷◌,
  arith, any, keep_if, length, Text, equal_fold, equal_fold_refl,
}
use re_terminal_eink_signage.Config.Types.{Config, User}
use re_terminal_eink_signage.Config.Checks.{first_error-none, none-first_error}
use re_terminal_eink_signage.Config.Validate.{validate}
use re_terminal_eink_signage.Config.Validate.Users.{validate_users}
use re_terminal_eink_signage.Config.Validate.Channels.{validate_alerts}
use re_terminal_eink_signage.Config.Validate.Locations.{validate_locations, validate_limits}
use re_terminal_eink_signage.Config.WellFormed.{is_admin, validate-IsWellFormed}
use re_terminal_eink_signage.Config.Edits.{
  validated, validated-none, validated-valid, with_user, without_user,
}
use re_terminal_eink_signage.Config.Edits.Lookups.{UserEdit, sets_user, removes_user, edit_user}

nat_cases : (n : ℕ) → (n ≡ 0) ⊎ (0 < n)
nat_cases zero = inl refl
nat_cases (suc n) = inr (omega arith)

module _ (load_location : Text → Bool) (url_parse : Text → Option (Text × Text)) where
  admin_remains :
      (c : Config)
      → validate load_location url_parse c ≡ none
      → (length c.users ≡ 0) ⊎ (any is_admin c.users ≡ true)
  admin_remains c h =
      let (_, _, _, accounts, _) = validate-IsWellFormed load_location url_parse c h in
      elim (nat_cases (length c.users)) [ inl e ↦ inl e | inr p ↦ inr (accounts p).2 ]

  -- An accepted edit of accounts leaves an administrator, or no account at all.
  edit_user-admin :
      (e : UserEdit) (c next : Config)
      → edit_user load_location url_parse e c ≡ inr next
      → (length next.users ≡ 0) ⊎ (any is_admin next.users ≡ true)
  unfolding edit_user with_user without_user
  edit_user-admin (sets_user u) c next h =
      admin_remains next (validated-valid load_location url_parse _ next h)
  edit_user-admin (removes_user gone) c next h =
      admin_remains next (validated-valid load_location url_parse _ next h)

  no_accounts-valid :
      (c : Config)
      → validate load_location url_parse c ≡ none
      → validate load_location url_parse (record c { users = [] }) ≡ none
  unfolding validate validate_users validate_alerts validate_locations validate_limits
  no_accounts-valid c h =
      let (a, (b, (d, (e, (f, (g, (i, (j, (k, (l, (_, (alerts, (places, _))))))))))))) =
        first_error-none _ h in
      let (list, (_, (needed, (found, (rooms, _))))) = first_error-none _ places in
      let places' = none-first_error _ (list, (refl, (needed, (found, (rooms, tt))))) in
      none-first_error _
        (a, (b, (d, (e, (f, (g, (i, (j, (k, (l, (refl, (alerts, (places', tt)))))))))))))

  -- The only account, an administrator's, can be removed: no account is left then, and the copy is
  -- accepted because a configuration without accounts is valid.
  without_user-sole :
      (c : Config) (u : User)
      → validate load_location url_parse c ≡ none
      → c.users ≡ u ∷ []
      → without_user load_location url_parse u.username c ≡ inr (record c { users = [] })
  unfolding without_user
  without_user-sole c u h sole =
      let removed : keep_if (λ v. not (equal_fold v.username u.username)) c.users ≡ [] =
        rw (sole, equal_fold_refl) refl in
      ap (λ us. validated load_location url_parse (record c { users = us })) removed
      ∙ validated-none load_location url_parse _ (no_accounts-valid c h)
