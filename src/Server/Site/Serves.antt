-- ===== src/Server/Site/Serves.antt =====
-- What one request does to the tables and to the saved configuration.
use re_terminal_eink_signage.Base.{◌≡◌, refl, ap, ◌∙◌, ◌⊎◌, inl, inr, Bool, true, Text}
use re_terminal_eink_signage.Config.Types.{Config}
use re_terminal_eink_signage.Config.Checks.{ConfigError}
use re_terminal_eink_signage.Auth.Sessions.{Store}
use re_terminal_eink_signage.Server.Site.{World, Moment, Site, Reply, redirects, commit}
use re_terminal_eink_signage.Server.Site.Coherent.{Coherent, Fits, commit-Coherent}
use re_terminal_eink_signage.Server.Site.Saves.{Unchanged, Saves, succeeds, commit-Saves}

abbrev pub Serves : World → Site → Reply × Site → Type 0
Serves w s r = Coherent r.1 × Saves w s r

-- Only the configuration and the tables matter.
pub alike-Coherent : (s t : Site) → Unchanged s t → Coherent s → Coherent t
alike-Coherent s t (a, b, d, e) c = record {
  well_formed = rw a c.well_formed;
  logins = b ∙ c.logins ∙ rw a refl;
  tokens = d ∙ c.tokens ∙ rw a refl;
  called = e ∙ c.called ∙ rw a refl;
}

module _ (w : World) where
  pub commit-Serves :
      (m : Moment) (edited : ConfigError ⊎ Config) (refresh : Bool) (at failed_at done : Text)
      (s : Site)
      → Fits refresh s.cfg edited
      → Coherent s
      → Serves w s (commit w m edited refresh at failed_at done s)
  commit-Serves m edited refresh at failed_at done s f c = (
    commit-Coherent w m edited refresh at failed_at done s f c,
    commit-Saves w m edited refresh at failed_at done s,
  )

-- Sessions, reset links and limits are no part of it.
pub sessions-Coherent :
    (sessions : Store) (s : Site) → Coherent s → Coherent (record s { sessions = sessions })
sessions-Coherent sessions s c = alike-Coherent s _ (refl, refl, refl, refl) c

-- A request that begins by looking at sessions is one to the site that this leaves.
after_look :
    (w : World) (s t : Site) (r : Reply × Site) → Unchanged s t → Serves w t r → Serves w s r
after_look w s t r (a, b, d, e) (c, inl (a', b', d', e')) =
    (c, inl (a' ∙ a, b' ∙ b, d' ∙ d, e' ∙ e))
after_look w s t r u (c, inr saved) = (c, inr saved)

pub Fits-along :
    (refresh : Bool) (c d : Config) (edited : ConfigError ⊎ Config)
    → d ≡ c
    → Fits refresh c edited
    → Fits refresh d edited
Fits-along refresh c d edited e f = rw e f

pub commit_after :
    (w : World) (m : Moment) (edited : ConfigError ⊎ Config) (refresh : Bool)
    (at failed_at done : Text) (s t : Site)
    → Unchanged s t
    → Fits refresh s.cfg edited
    → Coherent s
    → Serves w s (commit w m edited refresh at failed_at done t)
commit_after w m edited refresh at failed_at done s t u f c =
    after_look w s t (commit w m edited refresh at failed_at done t) u (
      commit-Serves w m edited refresh at failed_at done t
        (Fits-along refresh s.cfg t.cfg edited u.0 f) (alike-Coherent s t u c))

-- A step that succeeds and leaves the configuration, the tables and the backend alone.
abbrev pub Follows : Site → Reply × Site → Type 0
Follows t r = Unchanged t r.1 × (r.1.saved ≡ t.saved) × (succeeds r.0 ≡ true)

pub then-Saves :
    (w : World) (s t : Site) (to : Text) (r : Reply × Site)
    → Follows t r
    → Saves w s (redirects to, t)
    → Saves w s r
then-Saves w s t to r ((a, b, d, e), same, done) (inl (a', b', d', e')) =
    inl (a ∙ a', b ∙ b', d ∙ d', e ∙ e')
then-Saves w s t to r ((a, b, d, e), same, done) (inr (backed, told)) = inr (
  λ durable.
      let (out, marshalled, kept) = backed durable in
      (out, ap w.marshal a ∙ marshalled, same ∙ kept),
  done,
)
