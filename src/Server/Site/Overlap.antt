-- ===== src/Server/Site/Overlap.antt =====
-- Two requests whose handlers load the configuration before either of them has saved its change:
-- writeMu of backend/internal/server/configwrite.go is taken only after the edit.
use re_terminal_eink_signage.Base.{
  ◌≡◌, refl, sym, ap, ◌∙◌, ◌⊎◌, inl, inr, true, false, Option, none, [], Text,
}
use re_terminal_eink_signage.Config.Types.{Config, WakeConfig}
use re_terminal_eink_signage.Config.Edits.{validated-inr, with_wake, without_user}
use re_terminal_eink_signage.Auth.Credentials.{directory_of}
use re_terminal_eink_signage.Server.Site.{
  World, Moment, PersistError, Site, persist_first, applied_by, apply_config,
}
use re_terminal_eink_signage.Server.Site.Committed.{applied_by-Live}

module _ (w : World) where
  applied_by-kept :
      (m : Moment) (p : (PersistError × Option Text) ⊎ Option Text) (next : Config) (s : Site)
      → (applied_by w m p next false s).0 ≡ none
      → ((applied_by w m p next false s).1.cfg ≡ next)
        × ((applied_by w m p next false s).1.directory ≡ s.directory)
  unfolding applied_by
  applied_by-kept m (inl (e, left)) next s h = cc
  applied_by-kept m (inr out) next s h = (refl, refl)

  -- An account is removed while the handler of the wake defaults, which loaded the configuration
  -- before, waits for its turn. If both save, the accounts in the configuration are the ones before
  -- the removal, so the account is back, while logins are still checked against the accounts without
  -- it.
  pub overlap_restores_account :
      (m later : Moment) (s : Site) (name : Text) (wake : WakeConfig) (removed edited : Config)
      → without_user w.load_location w.url_parse name s.cfg ≡ inr removed
      → with_wake w.load_location w.url_parse wake s.cfg ≡ inr edited
      → (apply_config w m removed true s).0 ≡ none
      → (apply_config w later edited false (apply_config w m removed true s).1).0 ≡ none
      → ((apply_config w later edited false (apply_config w m removed true s).1).1.cfg.users
          ≡ s.cfg.users)
        × ((apply_config w later edited false (apply_config w m removed true s).1).1.directory
            ≡ directory_of removed.users [])
  unfolding with_wake apply_config
  overlap_restores_account m later s name wake removed edited gone changed first second =
      let live = applied_by-Live w m (persist_first w m removed s.saved) removed s first in
      let after = (apply_config w m removed true s).1 in
      let (cfg, logins) =
        applied_by-kept later (persist_first w later edited after.saved) edited after second in
      let same = (validated-inr w.load_location w.url_parse _ edited changed).0 in
      (ap (λ (c : Config). c.users) (cfg ∙ sym same), logins ∙ live.1)
