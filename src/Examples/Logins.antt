-- ===== src/Examples/Logins.antt =====
-- Theorems about logins to the fleet of Settings.
use re_terminal_eink_signage.Base.{
  ℕ, inr, ◌≡◌, refl, true, false, not, some, List, [], ◌∷◌, arith, map, get_elem?, text, text_eq,
  lower, fold, is_empty, equal_fold, hex_value, decode_hex, lookup, insert, encode_hex,
}
use re_terminal_eink_signage.Config.Types.{User}
use re_terminal_eink_signage.Config.Types.{find_user, user_by_username}
use re_terminal_eink_signage.Config.Checks.{Distinct}
use re_terminal_eink_signage.Config.WellFormed.{validate-IsWellFormed}
use re_terminal_eink_signage.Auth.{role_rank, satisfies}
use re_terminal_eink_signage.Auth.Credentials.{
  VerifyResult, decode_hash, directory_of, verify, verify-account,
}
use re_terminal_eink_signage.Auth.Sessions.{
  Session, missing, new_session_store, save_locked, create, check,
}
use re_terminal_eink_signage.Server.Gate.{viewer_ui}
use re_terminal_eink_signage.Server.Login.Password.{change_password-verify}
use re_terminal_eink_signage.Config.Edits.{with_user, upsert, validated-none}
use re_terminal_eink_signage.Server.Login.{
  no_flags, signs_in, handle_change_password_submit, door_session, handle_login_submit,
  handle_totp_verify_submit,
}
use re_terminal_eink_signage.Server.Login.SecondFactor.{
  Op, logs_in, enters_code, run, Uncoded, second_factor_needed,
}
use re_terminal_eink_signage.Examples.Sites.{
  key, digest, digest-IsDigest, fleet-AsciiNames, no_code, world, moment, site,
}
use re_terminal_eink_signage.Examples.Fleet.{fleet, ada, known_zone, parsed, variants_valid}

abbrev result : VerifyResult
result = record { role = text "admin"; must_change_password = false; totp_enabled = true }

verify-account_example :
    (i : ℕ) × (u : User) × (get_elem? fleet.users i ≡ some u)
    × (lower u.username ≡ lower (text "Ada"))
    × (decode_hash u.password_sha256 ≡ some (digest (text "pw")))
    × (result ≡ record {
      role = u.role;
      must_change_password = u.must_change_password;
      totp_enabled = not (is_empty u.totp_secret);
    })
unfolding verify directory_of decode_hash decode_hex hex_value lookup insert lower fold text_eq
verify-account_example = verify-account digest fleet.users (text "Ada") (text "pw") result refl

names-Distinct : Distinct (map (λ v. lower v.username) fleet.users)
names-Distinct =
    let (_, _, _, accounts, _) = validate-IsWellFormed known_zone parsed fleet variants_valid.0 in
    (accounts (omega arith)).1

abbrev tries : List Op
tries =
    logs_in viewer_ui (text "Ada") (text "pw") [] (text "t1") 10 true
    ∷ enters_code viewer_ui (some (text "t1")) (text "000000") (text "t2") 20 true
    ∷ []

abbrev session : Session
session = record {
  role = text "admin";
  username = text "Ada";
  flags = record { must_change_password = false; pending_2fa = true };
}

tries-Uncoded : Uncoded key digest no_code fleet ada.totp_secret tries
unfolding Uncoded
tries-Uncoded = (refl, tt)

second_factor_needed_example : session.flags.pending_2fa ≡ true
unfolding verify directory_of decode_hash decode_hex hex_value lookup insert lower fold text_eq run
    handle_login_submit handle_totp_verify_submit door_session check create save_locked satisfies
    role_rank new_session_store user_by_username find_user equal_fold
second_factor_needed_example =
    second_factor_needed key digest no_code fleet 0 ada names-Distinct refl refl fleet-AsciiNames
      tries 1000 missing (text "t1") 30 true session tries-Uncoded refl refl

abbrev signed_in : Session
signed_in = record { role = text "admin"; username = text "ada"; flags = no_flags }

same_password :
    with_user known_zone parsed
      (record ada {
        password_sha256 = encode_hex (digest (text "new"));
        must_change_password = false;
      })
      fleet
    ≡ inr fleet
unfolding with_user upsert encode_hex equal_fold lower fold text_eq
same_password = validated-none known_zone parsed _ variants_valid.0

site-signed_in :
    (door_session key viewer_ui (some (text "t1")) 20 true site.sessions).0 ≡ some signed_in
unfolding door_session check create save_locked satisfies role_rank new_session_store lookup insert
    text_eq
site-signed_in = refl

site-signs_in :
    (handle_change_password_submit world moment viewer_ui
      (some (text "t1"))
      (text "new")
      (text "new")
      (text "t2")
      site).0
    ≡ signs_in (text "admin") (text "t2") viewer_ui.home_path
unfolding handle_change_password_submit user_by_username find_user equal_fold lower fold text_eq
site-signs_in = rw (handle_change_password_submit, site-signed_in, same_password) refl

change_password-verify_example :
    (is_empty (text "new") ≡ false)
    × (text "new" ≡ text "new")
    × (u : User) × (user_by_username fleet (text "ada") ≡ some u)
    × (verify digest
          (handle_change_password_submit world moment viewer_ui
            (some (text "t1"))
            (text "new")
            (text "new")
            (text "t2")
            site).1.directory
          (text "ada")
          (text "new")
        ≡ some (record {
          role = u.role;
          must_change_password = false;
          totp_enabled = not (is_empty u.totp_secret);
        }))
change_password-verify_example =
    change_password-verify world digest-IsDigest moment viewer_ui (some (text "t1")) (text "new")
      (text "new") (text "t2") site signed_in (text "admin") (text "t2") viewer_ui.home_path
      fleet-AsciiNames (omega arith) site-signed_in site-signs_in
