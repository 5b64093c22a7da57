-- ===== src/Server/Site.antt =====
-- The part of `Server` that a web page can change, and applyConfig of
-- backend/internal/server/configwrite.go, through which every change of the configuration goes.
-- writeMu makes `apply_config` one step.
pub mod Coherent
pub mod Fits
pub mod Saves
pub mod Serves
pub mod Committed
pub mod Overlap
use re_terminal_eink_signage.Base.{
  ℕ, ◌*◌, is_empty, Bool, true, false, not, ◌⊎◌, inl, inr, Option, none, some, List, [],
  if◌then◌else◌, Text, text,
}
use re_terminal_eink_signage.Base.Int.{ℤ}
use re_terminal_eink_signage.Config.Types.{Config}
use re_terminal_eink_signage.Config.Checks.{ConfigError}
use re_terminal_eink_signage.Calendar.{minute}
use re_terminal_eink_signage.Auth.Credentials.{Directory, directory_of}
use re_terminal_eink_signage.Auth.Sessions.{SessionFile, Store, new_session_store, persist}
use re_terminal_eink_signage.Auth.Tokens.{ResetStore, RateWindow}
use re_terminal_eink_signage.Server.Devices.{new_device_auth, names_of}

-- What the server uses that is not its own: Go's library, YAML, and the durable backend that
-- configstore.go chose. `marshal` is `MarshalForPersist`, an error or the file's text. A parsed
-- number is what the call gives, also next to an error; `parse_uint32` says if there was none.
-- Hours and durations are taken as not negative.
pub record World : Type 0 where
  pub key : Text → Text
  pub sha256 : Text → List ℕ
  pub verify_totp : Text → Text → ℕ → Bool
  pub load_location : Text → Bool
  pub url_parse : Text → Option (Text × Text)
  pub marshal : Config → Text ⊎ Text
  pub mode : Text
  pub target : Text
  pub durable : Bool
  pub parse_int : Text → ℤ
  pub parse_hour : Text → ℕ
  pub parse_uint32 : Text → ℕ × Bool
  pub parse_duration : Text → ℕ
  pub parse_vapid_keys : Text → Text → Option Text

-- What `Persist` does: it fails with an error, and may have written the text nevertheless.
pub data Outcome : Type 0 where
  stored : Outcome
  failed : Text → Bool → Outcome

-- What a request meets: the time, whether the session file can be written, what the backend does,
-- and the texts that are drawn at random.
pub record Moment : Type 0 where
  pub now : ℕ
  pub written : Bool
  pub outcome : Outcome
  pub drawn : Option Text
  pub drawn_nonce : Option Text

-- The errors of `applyConfig`: the target and the cause, and for a failed write the mode too.
pub data PersistError : Type 0 where
  not_marshalled : Text → Text → PersistError
  not_persisted : Text → Text → Text → PersistError

pub record PersistState : Type 0 where
  pub mode : Text
  pub target : Text
  pub durable : Bool
  pub last_err : Option PersistError
  pub last_err_at : ℕ
  pub last_ok_at : ℕ

-- A channel that alerts are sent on, with what it was built from.
pub data Channel : Type 0 where
  lark_app : Text → Text → Text → Channel
  slack_webhook : Text → Channel
  web_push : Text → Text → Channel

-- `saved` is the text that the durable backend holds, if any.
pub record Site : Type 0 where
  pub cfg : Config
  pub directory : Directory
  pub auth : List (Text × List ℕ)
  pub names : List (Text × Text)
  pub sessions : Store
  pub pstate : PersistState
  pub resets : ResetStore
  pub reset_tokens : ResetStore
  pub forgot_password_limiter : List (Text × RateWindow)
  pub vapid_public_key : Text
  pub notifier : List Channel
  pub saved : Option Text

unfoldable pub refresh_derived : Config → Site → Site
refresh_derived cfg s = record s {
  names = names_of cfg.rooms [];
  auth = new_device_auth cfg;
  directory = directory_of cfg.users [];
}

module _ (w : World) (m : Moment) where
  abbrev pub record_ok : PersistState → PersistState
  record_ok p = record p {
    mode = w.mode;
    target = w.target;
    durable = w.durable;
    last_err = none;
    last_ok_at = m.now;
  }

  abbrev pub record_err : PersistError → PersistState → PersistState
  record_err e p = record p {
    mode = w.mode;
    target = w.target;
    durable = w.durable;
    last_err = some e;
    last_err_at = m.now;
  }

  -- The configuration is written first, if the backend is durable: an error, or the text that the
  -- backend holds then. What a failed write left behind stands next to its error.
  unfoldable pub persist_by :
      Bool → Text ⊎ Text → Outcome → Option Text → (PersistError × Option Text) ⊎ Option Text
  persist_by false out o before = inr before
  persist_by true (inl err) o before = inl (not_marshalled w.target err, before)
  persist_by true (inr out) stored before = inr (some out)
  persist_by true (inr out) (failed err landed) before =
      inl (not_persisted w.mode w.target err, if landed then some out else before)

  unfoldable pub persist_first : Config → Option Text → (PersistError × Option Text) ⊎ Option Text
  unfolding persist_by
  persist_first next before = persist_by w.durable (w.marshal next) m.outcome before

  unfoldable pub applied_by :
      (PersistError × Option Text) ⊎ Option Text → Config → Bool → Site → Option PersistError × Site
  applied_by (inl (e, left)) next refresh s =
      (some e, record s { pstate = record_err e s.pstate; saved = left })
  applied_by (inr out) next refresh s =
      let live : Site = record s { cfg = next; saved = out; pstate = record_ok s.pstate } in
      (none, if refresh then refresh_derived next live else live)

  unfoldable pub apply_config : Config → Bool → Site → Option PersistError × Site
  unfolding applied_by persist_first
  apply_config next refresh s = applied_by (persist_first next s.saved) next refresh s

abbrev pub session_ttl : ℕ
session_ttl = 12 * 60 * minute

-- The fields that `New` sets, given what the session file and the durable backend hold. No save has
-- been tried; the channels are made later, by `ActivateChannels`.
unfoldable pub fresh_site : World → ℕ → SessionFile → Option Text → Config → Site
fresh_site w now file saved cfg = record {
  cfg = cfg;
  directory = [];
  auth = [];
  names = [];
  sessions =
      let store = new_session_store session_ttl file in
      if is_empty cfg.auth.session_store_path then store else (persist now store).1;
  pstate = record {
    mode = w.mode;
    target = w.target;
    durable = w.durable;
    last_err = none;
    last_err_at = 0;
    last_ok_at = 0;
  };
  resets = [];
  reset_tokens = [];
  forgot_password_limiter = [];
  vapid_public_key = [];
  notifier = [];
  saved = saved;
}

-- `New`.
abbrev pub new_site : World → ℕ → SessionFile → Option Text → Config → Site
new_site w now file saved cfg = refresh_derived cfg (fresh_site w now file saved cfg)

-- An answer: a redirect, a redirect back with an error to be shown at a section of the page, a bare
-- status, or the page that asks for a new password, with the token that its form goes on with. What
-- is put into an address is not escaped here.
pub data Complaint : Type 0 where
  invalid : ConfigError → Complaint
  unsaved : PersistError → Complaint
  says : Text → Complaint
  own_second_factor : Complaint

pub data Reply : Type 0 where
  redirects : Text → Reply
  complains : Text → Complaint → Reply
  answers : ℕ → Reply
  asks_again : Text → Reply

-- What the handlers end with: the edit's error, or `applyConfig` and its error, or the new page. The
-- two texts are the places that the errors are shown at.
abbrev pub told : Text → Text → Option PersistError × Site → Reply × Site
told failed_at done (some e, s) = (complains failed_at (unsaved e), s)
told failed_at done (none, s) = (redirects done, s)

unfoldable pub commit :
    World → Moment → ConfigError ⊎ Config → Bool → Text → Text → Text → Site → Reply × Site
commit w m (inl e) refresh rejected_at failed_at done s = (complains rejected_at (invalid e), s)
commit w m (inr next) refresh rejected_at failed_at done s =
    told failed_at done (apply_config w m next refresh s)

-- `persistStrip`: the class and whether the text is that of the last failure.
unfoldable pub persist_strip : PersistState → Text × Option PersistError
persist_strip p = elim p.last_err [
  | some e ↦ (text "banner-error", some e)
  | none ↦ (if not p.durable then text "banner-warn" else text "", none)
]
