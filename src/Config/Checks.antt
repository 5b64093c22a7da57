-- ===== src/Config/Checks.antt =====
-- What the validation of backend/internal/config shares: its errors, one constructor for each that
-- config.go and notify.go report, and loops that remember the keys they have seen.
use re_terminal_eink_signage.Base.{
  ℕ, zero, suc, ◌≡◌, refl, sym, ap, ◌∙◌, Bool, true, false, Option, none, some, List, [], ◌∷◌,
  arith, get_elem?, any, All, some_injective, Text, text_eq, text_eq_refl,
}

pub data ConfigError : Type 0 where
  bad_provider : Text → ConfigError
  no_rooms : ConfigError
  room_incomplete : ℕ → ConfigError
  duplicate_device_id : Text → ConfigError
  bad_room_token : Text → ConfigError
  bad_room_wake_mode : Text → Text → ConfigError
  label_needed : Text → ConfigError
  duplicate_label : Text → Text → ConfigError
  bad_timezone : Text → ConfigError
  bad_forced_refresh_hour : ConfigError
  bad_wake_mode : Text → ConfigError
  bad_telemetry_backend : Text → ConfigError
  bad_detail_level : Text → ConfigError
  bad_persistence_mode : Text → ConfigError
  short_session_secret : ConfigError
  smtp_relay_missing : ConfigError
  from_address_missing : ConfigError
  public_base_url_missing : ConfigError
  username_missing : ℕ → ConfigError
  duplicate_username : Text → ConfigError
  bad_password_hash : Text → ConfigError
  bad_role : Text → Text → ConfigError
  no_admin : ConfigError
  bad_message_style : Text → ConfigError
  channel_twice : Text → ConfigError
  unknown_channel : Text → ConfigError
  log_combined : ConfigError
  url_empty : Text → ConfigError
  url_not_https : Text → ConfigError
  vapid_key_missing : ConfigError
  bad_vapid_public_key : ConfigError
  bad_vapid_private_key : ConfigError
  bad_vapid_subject : ConfigError
  subscription_without_user : ConfigError
  bad_endpoint : ConfigError
  bad_p256dh : ConfigError
  bad_subscription_auth : ConfigError
  subscription_unknown_location : ℕ → Text → ConfigError
  location_id_missing : ℕ → ConfigError
  duplicate_location : Text → ConfigError
  location_with_comma : Text → ConfigError
  location_name_missing : Text → ConfigError
  bad_email : Text → ConfigError
  bad_chat_id : Text → ConfigError
  bad_delivery : Text → ConfigError
  delivery_needs_email : Text → ConfigError
  delivery_needs_chat : Text → ConfigError
  limited_admin : Text → ConfigError
  user_unknown_location : Text → Text → ConfigError
  user_location_twice : Text → Text → ConfigError
  no_default_location : ConfigError
  unknown_default_location : Text → ConfigError
  room_unknown_location : Text → Text → ConfigError
  app_id_missing : ConfigError
  app_secret_missing : ConfigError
  bad_fallback_chat : ConfigError
  nowhere_to_go : ConfigError
  location_without_route : Text → ConfigError
  room_not_found : Text → ConfigError
  is_default_location : Text → ConfigError
  room_in_location : Text → ConfigError
  user_in_location : Text → ConfigError

-- `if bad { return fmt.Errorf(...) }`.
unfoldable pub reject_if : Bool → ConfigError → Option ConfigError
reject_if true e = some e
reject_if false e = none

-- Checks in a row: the first error is returned, `none` is `nil`.
unfoldable pub first_error : List (Option ConfigError) → Option ConfigError
first_error [] = none
first_error (none ∷ checks) = first_error checks
first_error (some e ∷ checks) = some e

pub first_error-none :
    (checks : List (Option ConfigError)) → first_error checks ≡ none → All (λ c. c ≡ none) checks
unfolding first_error
first_error-none [] h = tt
first_error-none (none ∷ checks) h = (refl, first_error-none checks h)
first_error-none (some e ∷ checks) h = cc

pub none-first_error :
    (checks : List (Option ConfigError)) → All (λ c. c ≡ none) checks → first_error checks ≡ none
unfolding first_error
none-first_error [] a = refl
none-first_error (none ∷ checks) a = none-first_error checks a.1
none-first_error (some e ∷ checks) a = cc

pub reject_if-none : (bad : Bool) (e : ConfigError) → reject_if bad e ≡ none → bad ≡ false
unfolding reject_if
reject_if-none true e h = cc
reject_if-none false e h = refl

-- `seen[k]`, with the keys that were set.
unfoldable pub contains : Text → List Text → Bool
contains k keys = any (λ j. text_eq j k) keys

-- No key is one of those seen before it, nor of `seen`.
unfoldable pub Unseen : List Text → List Text → Type 0
Unseen seen [] = Unit
Unseen seen (k ∷ keys) = (contains k seen ≡ false) × Unseen (k ∷ seen) keys

-- No key stands at two places.
abbrev pub Distinct : List Text → Type 0
Distinct keys = (i j : ℕ) (k : Text) → get_elem? keys i ≡ some k → get_elem? keys j ≡ some k → i ≡ j

Unseen-new :
    (seen keys : List Text) (i : ℕ) (k : Text)
    → Unseen seen keys
    → get_elem? keys i ≡ some k
    → contains k seen ≡ false
unfolding Unseen contains
Unseen-new seen [] i k u h = cc
Unseen-new seen (j ∷ keys) zero k u h = ap (λ t. contains t seen) (sym (some_injective h)) ∙ u.0
Unseen-new seen (j ∷ keys) (suc i) k u h = ground (arith, Unseen-new (j ∷ seen) keys i k u.1 h)

pub Unseen-Distinct : (seen keys : List Text) → Unseen seen keys → Distinct keys
unfolding Unseen contains
Unseen-Distinct seen [] u i j k h h' = cc
Unseen-Distinct seen (k' ∷ keys) u zero zero k h h' = refl
Unseen-Distinct seen (k' ∷ keys) u zero (suc j) k h h' =
    ground (arith, Unseen-new (k' ∷ seen) keys j k u.1 h', text_eq_refl k, some_injective h)
Unseen-Distinct seen (k' ∷ keys) u (suc i) zero k h h' =
    ground (arith, Unseen-new (k' ∷ seen) keys i k u.1 h, text_eq_refl k, some_injective h')
Unseen-Distinct seen (k' ∷ keys) u (suc i) (suc j) k h h' =
    ap suc (Unseen-Distinct (k' ∷ seen) keys u.1 i j k h h')
