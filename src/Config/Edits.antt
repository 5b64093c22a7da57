-- ===== src/Config/Edits.antt =====
-- The edits of config.go and notify.go: each makes a changed copy of the configuration, and gives it
-- only if `Validate` accepts it. A copy is a value here, so `clone` is nothing to do.
pub mod Lookups
pub mod Admins
pub mod Access
pub mod Logins
use re_terminal_eink_signage.Base.{
  ℕ, ◌≡◌, refl, subst, Option-cases, Bool, not, ◌&&◌, ◌⊎◌, inl, inr, Option, none, some, List, [],
  ◌∷◌, ◌++◌, map, ltb, ◌==◌, if◌then◌else◌, length, any, keep_if, Text, text_eq, is_empty,
  equal_fold,
}
use re_terminal_eink_signage.Config.Types.{
  AlertConfig, Config, FirmwareConfig, Location, PushSubscription, Room, User, WakeConfig,
  can_see_location, limited,
}
use re_terminal_eink_signage.Config.Checks.{
  ConfigError, is_default_location, room_in_location, room_not_found, user_in_location, reject_if,
  first_error,
}
use re_terminal_eink_signage.Config.Validate.{validate}

module _ {A : Type 0} where
  -- The loop that replaces the first match and stops, and the append if there was none.
  unfoldable pub upsert : (A → Bool) → A → List A → List A
  upsert same x [] = x ∷ []
  upsert same x (y ∷ ys) = if same y then x ∷ ys else y ∷ upsert same x ys

  unfoldable pub update_first : (A → Bool) → (A → A) → List A → List A
  update_first same f [] = []
  update_first same f (y ∷ ys) = if same y then f y ∷ ys else y ∷ update_first same f ys

-- What `WithoutLocation` refuses before it makes a copy.
unfoldable pub location_in_use : Text → Config → Option ConfigError
location_in_use id c = first_error (
    reject_if (text_eq c.default_location id && ltb 1 (length c.locations)) (is_default_location id)
    ∷ reject_if (any (λ r. text_eq r.location id) c.rooms) (room_in_location id)
    ∷ reject_if (any (λ u. can_see_location u id && limited u) c.users) (user_in_location id)
    ∷ [])

-- The copy without the location.
abbrev pub remove_location : Text → Config → Config
remove_location id c = record c {
  locations = keep_if (λ l. not (text_eq l.id id)) c.locations;
  default_location = if text_eq c.default_location id then [] else c.default_location;
}

module _ (load_location : Text → Bool) (url_parse : Text → Option (Text × Text)) where
  -- `if err := next.Validate(); err != nil { return nil, err }; return next, nil`.
  unfoldable pub validated : Config → ConfigError ⊎ Config
  validated next = elim (validate load_location url_parse next) [ none ↦ inr next | some e ↦ inl e ]

  -- An accepted edit gives the copy, which is valid.
  pub validated-inr :
      (c next : Config)
      → validated c ≡ inr next
      → (c ≡ next) × (validate load_location url_parse c ≡ none)
  unfolding validated
  validated-inr c next h = elim (Option-cases (validate load_location url_parse c)) [
    | inl e ↦ let given = rw (e, validated) at h in (cc, e)
    | inr (x, e) ↦ let refused = rw (e, validated) at h in absurd cc
  ]

  pub validated-none :
      (c : Config) → validate load_location url_parse c ≡ none → validated c ≡ inr c
  unfolding validated
  validated-none c h = rw (validated, h) refl

  pub validated-valid :
      (c next : Config) → validated c ≡ inr next → validate load_location url_parse next ≡ none
  validated-valid c next h =
      let (same, valid) = validated-inr c next h in
      subst (λ n. validate load_location url_parse n ≡ none) same valid

  unfoldable pub with_room : Room → Config → ConfigError ⊎ Config
  with_room updated c =
      validated
        (record c { rooms = upsert (λ r. text_eq r.device_id updated.device_id) updated c.rooms })

  unfoldable pub without_room : Text → Config → ConfigError ⊎ Config
  without_room device_id c =
      validated (record c { rooms = keep_if (λ r. not (text_eq r.device_id device_id)) c.rooms })

  unfoldable pub with_room_wake_override :
      Text → Option Text → Option ℕ → Config → ConfigError ⊎ Config
  with_room_wake_override device_id mode flat_seconds c =
      if any (λ r. text_eq r.device_id device_id) c.rooms
      then validated (record c {
        rooms =
            update_first (λ r. text_eq r.device_id device_id)
              (λ r. record r { wake_mode = mode; flat_interval_seconds = flat_seconds }) c.rooms;
      })
      else inl (room_not_found device_id)

  unfoldable pub with_wake : WakeConfig → Config → ConfigError ⊎ Config
  with_wake w c = validated (record c { wake = w })

  unfoldable pub with_alerts : AlertConfig → Config → ConfigError ⊎ Config
  with_alerts a c = validated (record c { alerts = a })

  unfoldable pub with_firmware : FirmwareConfig → Config → ConfigError ⊎ Config
  with_firmware f c = validated (record c { firmware = f })

  unfoldable pub with_fleet_wifi_ssid : Text → Config → ConfigError ⊎ Config
  with_fleet_wifi_ssid ssid c = validated (record c { fleet = record c.fleet { wifi_ssid = ssid } })

  unfoldable pub with_user : User → Config → ConfigError ⊎ Config
  with_user updated c =
      validated
        (record c { users = upsert (λ u. equal_fold u.username updated.username) updated c.users })

  unfoldable pub without_user : Text → Config → ConfigError ⊎ Config
  without_user username c =
      validated (record c { users = keep_if (λ u. not (equal_fold u.username username)) c.users })

  unfoldable pub with_push_subscription : PushSubscription → Config → ConfigError ⊎ Config
  with_push_subscription s c = validated (record c {
    push_subscriptions =
        keep_if (λ e. not (text_eq e.endpoint s.endpoint)) c.push_subscriptions ++ s ∷ [];
  })

  -- Every location of the id is replaced, not only the first one.
  unfoldable pub with_location : Location → Config → ConfigError ⊎ Config
  with_location l c = validated (record c {
    locations =
        if any (λ m. text_eq m.id l.id) c.locations
        then map (λ m. if text_eq m.id l.id then l else m) c.locations
        else c.locations ++ l ∷ [];
    default_location = if is_empty c.default_location then l.id else c.default_location;
  })

  unfoldable pub without_location : Text → Config → ConfigError ⊎ Config
  without_location id c = elim (location_in_use id c) [
    | some e ↦ inl e
    | none ↦ validated (remove_location id c)
  ]

  unfoldable pub with_default_location : Text → Config → ConfigError ⊎ Config
  with_default_location id c = validated (record c { default_location = id })

-- It is not validated: the result and whether one was removed.
unfoldable pub without_push_subscription : Text → Config → Config × Bool
without_push_subscription endpoint c =
    let out = keep_if (λ e. not (text_eq e.endpoint endpoint)) c.push_subscriptions in
    (record c { push_subscriptions = out }, not (length out == length c.push_subscriptions))

unfoldable pub push_subscriptions_for : Text → Config → List PushSubscription
push_subscriptions_for username c =
    keep_if (λ s. equal_fold s.username username) c.push_subscriptions
