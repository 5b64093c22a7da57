-- ===== src/Examples/Sites.antt =====
-- A server of the fleet, with a file that the configuration is saved to.
use re_terminal_eink_signage.Base.{
  ℕ, ◌<◌, All, length, inr, ◌≡◌, refl, Bool, true, false, none, some, List, [], arith, replicate,
  Text, text,
}
use re_terminal_eink_signage.Base.Int.{pos}
use re_terminal_eink_signage.Config.Types.{Config}
use re_terminal_eink_signage.Config.Edits.Logins.{AsciiNames}
use re_terminal_eink_signage.Config.WellFormed.{validate-IsWellFormed}
use re_terminal_eink_signage.Auth.Credentials.{directory_of}
use re_terminal_eink_signage.Auth.Sessions.{Store, missing, new_session_store, create}
use re_terminal_eink_signage.Server.Devices.{new_device_auth, names_of}
use re_terminal_eink_signage.Server.Login.{no_flags}
use re_terminal_eink_signage.Server.Site.{World, stored, failed, Moment, Site}
use re_terminal_eink_signage.Server.Site.Coherent.{Coherent}
use re_terminal_eink_signage.Examples.Fleet.{fleet, known_zone, parsed, variants_valid}

abbrev pub key : Text → Text
key token = token

abbrev pub digest : Text → List ℕ
digest password = replicate 32 170

pub digest-IsDigest : (t : Text) → (length (digest t) ≡ 32) × All (λ b. b < 256) (digest t)
digest-IsDigest t = (refl, omega arith)

abbrev pub no_code : Text → Text → ℕ → Bool
no_code secret code now = false

pub fleet-AsciiNames : AsciiNames fleet.users
fleet-AsciiNames = omega arith

abbrev pub world : World
world = record {
  key = key;
  sha256 = digest;
  verify_totp = no_code;
  load_location = known_zone;
  url_parse = parsed;
  marshal = λ c. inr (text "config");
  mode = text "file";
  target = text "config.yaml";
  durable = true;
  parse_int = λ t. pos 0;
  parse_hour = λ t. 0;
  parse_uint32 = λ t. (300, true);
  parse_duration = λ t. 0;
  parse_vapid_keys = λ public private. none;
}

abbrev pub moment : Moment
moment = record {
  now = 20;
  written = true;
  outcome = stored;
  drawn = some (text "fresh");
  drawn_nonce = some (text "n1");
}

-- The file cannot be written.
abbrev pub full_disk : Moment
full_disk = record moment { outcome = failed (text "disk full") false }

abbrev pub opened : Store
opened =
    create key (text "t1") (text "admin") (text "ada") no_flags 10 true
      (new_session_store 1000 missing)

abbrev pub serving : Config → Site
serving c = record {
  cfg = c;
  directory = directory_of c.users [];
  auth = new_device_auth c;
  names = names_of c.rooms [];
  sessions = opened;
  pstate = record {
    mode = text "file";
    target = text "config.yaml";
    durable = true;
    last_err = none;
    last_err_at = 0;
    last_ok_at = 0;
  };
  resets = [];
  reset_tokens = [];
  forgot_password_limiter = [];
  vapid_public_key = [];
  notifier = [];
  saved = none;
}

abbrev pub site : Site
site = serving fleet

pub site-Coherent : Coherent site
site-Coherent = record {
  well_formed = record { at = validate-IsWellFormed known_zone parsed fleet variants_valid.0 };
  logins = refl;
  tokens = refl;
  called = refl;
}
