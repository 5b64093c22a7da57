-- ===== src/Server/Site/Committed.antt =====
-- What a change that was answered by its new page has done.
use re_terminal_eink_signage.Base.{◌≡◌, refl, ◌⊎◌, inl, inr, true, Option, none, some, [], Text}
use re_terminal_eink_signage.Config.Types.{Config}
use re_terminal_eink_signage.Config.Checks.{ConfigError}
use re_terminal_eink_signage.Auth.Credentials.{directory_of}
use re_terminal_eink_signage.Server.Site.{
  World, Moment, PersistError, Site, redirects, refresh_derived, persist_first, applied_by,
  apply_config, told, commit,
}

-- The configuration is live with its logins, and sessions and links are as they were.
abbrev pub Live : Config → Site → Site → Type 0
Live next s t =
    (t.cfg ≡ next)
    × (t.directory ≡ directory_of next.users [])
    × (t.sessions ≡ s.sessions)
    × (t.resets ≡ s.resets)

module _ (w : World) (m : Moment) where
  pub applied_by-Live :
      (p : (PersistError × Option Text) ⊎ Option Text) (next : Config) (s : Site)
      → (applied_by w m p next true s).0 ≡ none
      → Live next s (applied_by w m p next true s).1
  unfolding applied_by refresh_derived
  applied_by-Live (inl (e, left)) next s h = cc
  applied_by-Live (inr out) next s h = (refl, refl, refl, refl)

  told-done :
      (failed_at done to : Text) (r : Option PersistError × Site)
      → (told failed_at done r).0 ≡ redirects to
      → (r.0 ≡ none) × ((told failed_at done r).1 ≡ r.1)
  told-done failed_at done to (some e, t) h = cc
  told-done failed_at done to (none, t) h = (refl, refl)

  pub commit-redirects :
      (edited : ConfigError ⊎ Config) (at failed_at done to : Text) (s : Site)
      → (commit w m edited true at failed_at done s).0 ≡ redirects to
      → (next : Config) × (edited ≡ inr next)
        × Live next s (commit w m edited true at failed_at done s).1
  unfolding commit apply_config
  commit-redirects (inl e) at failed_at done to s h = cc
  commit-redirects (inr next) at failed_at done to s h =
      let (ok, same) = told-done failed_at done to (apply_config w m next true s) h in
      (next, refl, rw same (applied_by-Live (persist_first w m next s.saved) next s ok))
