-- ===== src/Server/Site/Coherent.antt =====
-- The tables that refreshDerived builds, beside the configuration that is live.
use re_terminal_eink_signage.Base.{
  ◌≡◌, refl, sym, ◌∙◌, ◌⊎◌, inl, inr, Bool, true, false, Option, none, some, [], Text,
}
use re_terminal_eink_signage.Config.Types.{Config}
use re_terminal_eink_signage.Config.Checks.{ConfigError}
use re_terminal_eink_signage.Config.WellFormed.{IsWellFormed}
use re_terminal_eink_signage.Auth.Credentials.{directory_of}
use re_terminal_eink_signage.Server.Devices.{new_device_auth, names_of}
use re_terminal_eink_signage.Server.Site.{
  World, Moment, PersistError, Site, refresh_derived, persist_first, applied_by, apply_config, told,
  commit,
}

-- The tables that are built from a configuration are the ones that are built from another.
abbrev pub SameTables : Config → Config → Type 0
SameTables c d =
    (directory_of d.users [] ≡ directory_of c.users [])
    × (new_device_auth d ≡ new_device_auth c)
    × (names_of d.rooms [] ≡ names_of c.rooms [])

-- The configuration is well-formed.
pub record Valid (c : Config) : Type 0 where
  pub at : IsWellFormed c

pub record Coherent (s : Site) : Type 0 where
  pub well_formed : Valid s.cfg
  pub logins : s.directory ≡ directory_of s.cfg.users []
  pub tokens : s.auth ≡ new_device_auth s.cfg
  pub called : s.names ≡ names_of s.cfg.rooms []

-- What an edit has to give for the server to stay coherent: a well-formed configuration, and the
-- same tables unless they are built again.
abbrev pub Fits : Bool → Config → ConfigError ⊎ Config → Type 0
Fits refresh c (inl e) = Unit
Fits refresh c (inr next) = Valid next × ((refresh ≡ true) ⊎ SameTables c next)

pub refresh_derived-Coherent :
    (next : Config) (s : Site) → s.cfg ≡ next → Valid next → Coherent (refresh_derived next s)
unfolding refresh_derived
refresh_derived-Coherent next s e ok = record {
  well_formed = rw e ok;
  logins = rw e;
  tokens = rw e;
  called = rw e;
}

module _ (w : World) (m : Moment) where
  applied_by-Coherent :
      (p : (PersistError × Option Text) ⊎ Option Text) (next : Config) (refresh : Bool) (s : Site)
      → Fits refresh s.cfg (inr next)
      → Coherent s
      → Coherent (applied_by w m p next refresh s).1
  unfolding applied_by
  applied_by-Coherent (inl (e, left)) next refresh s f c = record {
    well_formed = c.well_formed;
    logins = c.logins;
    tokens = c.tokens;
    called = c.called;
  }
  applied_by-Coherent (inr out) next true s f c = refresh_derived-Coherent next _ refl f.0
  applied_by-Coherent (inr out) next false s (ok, inl e) c = absurd cc
  applied_by-Coherent (inr out) next false s (ok, inr same) c = record {
    well_formed = ok;
    logins = c.logins ∙ sym same.0;
    tokens = c.tokens ∙ sym same.1;
    called = c.called ∙ sym same.2;
  }

  pub apply_config-Coherent :
      (next : Config) (refresh : Bool) (s : Site)
      → Fits refresh s.cfg (inr next)
      → Coherent s
      → Coherent (apply_config w m next refresh s).1
  unfolding apply_config
  apply_config-Coherent next refresh s =
      applied_by-Coherent (persist_first w m next s.saved) next refresh s

  pub told-Coherent :
      (failed_at done : Text) (r : Option PersistError × Site)
      → Coherent r.1
      → Coherent (told failed_at done r).1
  told-Coherent failed_at done (some e, s) c = c
  told-Coherent failed_at done (none, s) c = c

  pub commit-Coherent :
      (edited : ConfigError ⊎ Config) (refresh : Bool) (at failed_at done : Text) (s : Site)
      → Fits refresh s.cfg edited
      → Coherent s
      → Coherent (commit w m edited refresh at failed_at done s).1
  unfolding commit
  commit-Coherent (inl e) refresh at failed_at done s f c = c
  commit-Coherent (inr next) refresh at failed_at done s f c =
      told-Coherent failed_at done _ (apply_config-Coherent next refresh s f c)
