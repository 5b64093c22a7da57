-- ===== src/Examples/Writes.antt =====
-- Changes of the configuration on the server of Sites.
use re_terminal_eink_signage.Base.{
  arith, none, ℕ, ◌+◌, ◌<◌, ◌≡◌, refl, ◌⊎◌, inr, Bool, true, not, some, List, [], ◌∷◌, Text, text,
  text_eq, lower, fold, is_empty, equal_fold, encode_hex, lookup, insert,
}
use re_terminal_eink_signage.Config.Types.{User, find_user, user_by_username}
use re_terminal_eink_signage.Config.Edits.{validated-none, upsert, with_user}
use re_terminal_eink_signage.Auth.Credentials.{verify}
use re_terminal_eink_signage.Auth.Sessions.{missing, new_session_store, save_locked, create, check}
use re_terminal_eink_signage.Auth.Sessions.Unique.{Unique, kept}
use re_terminal_eink_signage.Auth.Tokens.{password_reset_ttl, take}
use re_terminal_eink_signage.Server.Forms.{Form, form_all, form_get}
use re_terminal_eink_signage.Server.Site.{
  new_site, Moment, Site, redirects, asks_again, refresh_derived, persist_by, persist_first,
  applied_by, apply_config, commit,
}
use re_terminal_eink_signage.Server.Site.Coherent.{Coherent}
use re_terminal_eink_signage.Server.Site.Saves.{Unchanged, Backed, succeeds}
use re_terminal_eink_signage.Server.Admin.Recovery.{
  when_saved, reveal, give_password, handle_admin_reset_password,
}
use re_terminal_eink_signage.Server.Admin.Recovery.Renewed.{reset_password_lem}
use re_terminal_eink_signage.Server.Reset.{
  handle_reset_with_token_page, handle_reset_with_token_submit,
}
use re_terminal_eink_signage.Server.Reset.Links.{short_password_spends_link}
use re_terminal_eink_signage.Server.Writes.{
  Event, writes, loses_subscription, deletes_user, resets_password, saves_firmware, respond, run,
}
use re_terminal_eink_signage.Server.Writes.Kept.{respond-Saves, served-Coherent}
use re_terminal_eink_signage.Examples.Fleet.{
  fleet, ada, bob, renewed_ada, known_zone, parsed, variants_valid,
}
use re_terminal_eink_signage.Examples.Sites.{
  key, digest, digest-IsDigest, fleet-AsciiNames, world, moment, full_disk, opened, site,
  site-Coherent,
}

abbrev form : Text → Form
form name = (text "username", name ∷ []) ∷ []

abbrev requests : List (Moment × Event)
requests =
    (moment, writes (deletes_user (some (text "t1")) (form (text "Bob"))))
    ∷ (full_disk, writes (resets_password (form (text "ada"))))
    ∷ (moment, writes (saves_firmware []))
    ∷ (moment, loses_subscription (text "https://push/1"))
    ∷ []

served-Coherent_example : Coherent (run world requests (new_site world 5 missing none fleet))
served-Coherent_example = served-Coherent world 5 missing none fleet requests variants_valid.0

respond-Saves_example :
    Unchanged site (respond world full_disk (resets_password (form (text "ada"))) site).1
    ⊎ (Backed world (respond world full_disk (resets_password (form (text "ada"))) site).1
        × (succeeds (respond world full_disk (resets_password (form (text "ada"))) site).0 ≡ true))
respond-Saves_example =
    respond-Saves world full_disk (resets_password (form (text "ada"))) site site-Coherent

-- A server that resets by mail, with a link for Bob.
abbrev mailing : Site
mailing = record site {
  cfg = record fleet {
    auth = record fleet.auth {
      password_reset = record fleet.auth.password_reset { enabled = true };
    };
  };
  reset_tokens = (text "l1", record { username = text "bob"; password = []; expires = 100 }) ∷ [];
}

short_password_spends_link_example :
    ((handle_reset_with_token_submit world moment (text "l1") (text "short") mailing).0
      ≡ asks_again (text "l1"))
    × ((handle_reset_with_token_submit world
          (record moment { now = 30 })
          (text "l1")
          (text "long enough")
          (handle_reset_with_token_submit world moment (text "l1") (text "short") mailing).1).0
        ≡ asks_again [])
    × (handle_reset_with_token_page world
          (record moment { now = 30 })
          (text "l1")
          (handle_reset_with_token_submit world moment (text "l1") (text "short") mailing).1
        ≡ asks_again [])
unfolding take lookup text_eq
short_password_spends_link_example =
    short_password_spends_link world moment (text "l1") (text "short") mailing
      (record { username = text "bob"; password = []; expires = 100 }) refl refl refl
      (record moment { now = 30 }) (text "long enough")

renewed_fleet :
    with_user known_zone parsed
      (record ada {
        password_sha256 = encode_hex (digest (text "fresh"));
        must_change_password = true;
      })
      fleet
    ≡ inr (record fleet { users = renewed_ada ∷ bob ∷ [] })
unfolding with_user upsert encode_hex equal_fold lower fold text_eq
renewed_fleet = validated-none known_zone parsed _ variants_valid.4

ada-reset :
    (handle_admin_reset_password world moment (form (text "ada")) site).0
    ≡ redirects (text "/admin?reset=n1#access")
unfolding handle_admin_reset_password form_get form_all lookup text_eq give_password when_saved
    reveal commit apply_config applied_by persist_first persist_by refresh_derived user_by_username
    find_user equal_fold lower fold
ada-reset = rw (handle_admin_reset_password, renewed_fleet) refl

opened-Unique : Unique opened.m
unfolding Unique create save_locked new_session_store lookup insert
opened-Unique = (refl, refl)

reset_password_lem_example :
    (u : User) × (user_by_username fleet (text "ada") ≡ some u)
    × (verify digest
          (handle_admin_reset_password world moment (form (text "ada")) site).1.directory
          (text "ada")
          (text "fresh")
        ≡ some (record {
          role = u.role;
          must_change_password = true;
          totp_enabled = not (is_empty u.totp_secret);
        }))
    × ((take 20
          (text "n1")
          (handle_admin_reset_password world moment (form (text "ada")) site).1.resets).0
        ≡ some (record {
          username = text "ada";
          password = text "fresh";
          expires = 20 + password_reset_ttl;
        }))
    × ((token : Text) (later : ℕ) (written : Bool)
        → 20 < later
        → (check key token later written
            (handle_admin_reset_password world moment (form (text "ada")) site).1.sessions).0
          ≡ kept
              (λ session. equal_fold session.username (text "ada"))
              (check key token later written opened).0)
unfolding form_get form_all lookup text_eq
reset_password_lem_example =
    reset_password_lem world digest-IsDigest moment (form (text "ada")) site (text "fresh")
      (text "n1") (text "/admin?reset=n1#access") refl refl ada-reset opened-Unique fleet-AsciiNames
      (omega arith)
