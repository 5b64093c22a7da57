-- ===== src/Server/Site/Saves.antt =====
-- What applyConfig has saved of a configuration that is live.
use re_terminal_eink_signage.Base.{
  ◌≡◌, refl, ◌⊎◌, inl, inr, Bool, true, false, Option, none, some, Text, ◌==◌,
}
use re_terminal_eink_signage.Config.Types.{Config}
use re_terminal_eink_signage.Config.Checks.{ConfigError}
use re_terminal_eink_signage.Server.Site.{
  World, Moment, Outcome, stored, failed, PersistError, Site, Reply, redirects, complains, answers,
  asks_again, refresh_derived, persist_by, persist_first, applied_by, apply_config, told, commit,
}

-- The configuration and the tables that are built from it are the same in both.
abbrev pub Unchanged : Site → Site → Type 0
Unchanged s t =
    (t.cfg ≡ s.cfg) × (t.directory ≡ s.directory) × (t.auth ≡ s.auth) × (t.names ≡ s.names)

-- A durable backend holds the text of the live configuration.
abbrev pub Backed : World → Site → Type 0
Backed w s = w.durable ≡ true → (out : Text) × (w.marshal s.cfg ≡ inr out) × (s.saved ≡ some out)

-- An answer that is no complaint: a redirect, or a status that is no error.
abbrev pub succeeds : Reply → Bool
succeeds (redirects to) = true
succeeds (complains at c) = false
succeeds (answers status) = status == 204
succeeds (asks_again token) = false

-- Either nothing has changed, or the new configuration is saved, and the answer says so.
abbrev pub Saves : World → Site → Reply × Site → Type 0
Saves w s r = Unchanged s r.1 ⊎ (Backed w r.1 × (succeeds r.0 ≡ true))

module _ (w : World) (m : Moment) where
  -- What is kept for an edit that was not refused.
  abbrev Keeps : Bool → Text ⊎ Text → (PersistError × Option Text) ⊎ Option Text → Type 0
  Keeps durable out (inl refused) = Unit
  Keeps durable out (inr kept) = durable ≡ true → (t : Text) × (out ≡ inr t) × (kept ≡ some t)

  persist_by-Keeps :
      (durable : Bool) (out : Text ⊎ Text) (o : Outcome) (before : Option Text)
      → Keeps durable out (persist_by w m durable out o before)
  unfolding persist_by
  persist_by-Keeps false out o before = λ d. cc
  persist_by-Keeps true (inl err) o before = tt
  persist_by-Keeps true (inr out) stored before = λ d. (out, refl, refl)
  persist_by-Keeps true (inr out) (failed err landed) before = tt

  -- `applyConfig` fails and changes neither the configuration nor its tables, or the configuration is
  -- live and saved.
  abbrev pub Applies : Site → Option PersistError × Site → Type 0
  Applies s (some e, t) = Unchanged s t
  Applies s (none, t) = Backed w t

  applied_by-Applies :
      (p : (PersistError × Option Text) ⊎ Option Text) (next : Config) (refresh : Bool) (s : Site)
      → Keeps w.durable (w.marshal next) p
      → Applies s (applied_by w m p next refresh s)
  unfolding applied_by refresh_derived
  applied_by-Applies (inl (e, left)) next refresh s k = (refl, refl, refl, refl)
  applied_by-Applies (inr out) next true s k = k
  applied_by-Applies (inr out) next false s k = k

  pub apply_config-Applies :
      (next : Config) (refresh : Bool) (s : Site) → Applies s (apply_config w m next refresh s)
  unfolding apply_config persist_first
  apply_config-Applies next refresh s =
      applied_by-Applies (persist_first w m next s.saved) next refresh s
        (persist_by-Keeps w.durable (w.marshal next) m.outcome s.saved)

  told-Saves :
      (failed_at done : Text) (s : Site) (r : Option PersistError × Site)
      → Applies s r
      → Saves w s (told failed_at done r)
  told-Saves failed_at done s (some e, t) a = inl a
  told-Saves failed_at done s (none, t) a = inr (a, refl)

  pub commit-Saves :
      (edited : ConfigError ⊎ Config) (refresh : Bool) (at failed_at done : Text) (s : Site)
      → Saves w s (commit w m edited refresh at failed_at done s)
  unfolding commit
  commit-Saves (inl e) refresh at failed_at done s = inl (refl, refl, refl, refl)
  commit-Saves (inr next) refresh at failed_at done s =
      told-Saves failed_at done s _ (apply_config-Applies next refresh s)
