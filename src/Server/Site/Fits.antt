-- ===== src/Server/Site/Fits.antt =====
-- What the edits give that are applied with and without building the tables again.
use re_terminal_eink_signage.Base.{
  ℕ, ◌≡◌, refl, ◌⊎◌, inl, inr, Bool, true, false, Option, List, [], ◌∷◌, Text, not, ◌++◌, keep_if,
  equal_fold, any, Option-cases, Bool-cases, text_eq,
}
use re_terminal_eink_signage.Config.Types.{
  AlertConfig, Config, FirmwareConfig, Location, PushSubscription, Room, User, WakeConfig,
}
use re_terminal_eink_signage.Config.Checks.{ConfigError}
use re_terminal_eink_signage.Config.Validate.{validate}
use re_terminal_eink_signage.Config.WellFormed.{validate-IsWellFormed}
use re_terminal_eink_signage.Config.Edits.{
  validated, update_first, with_room, without_room, with_wake, with_alerts, with_firmware,
  with_fleet_wifi_ssid, with_user, without_user, with_location, with_default_location,
  with_push_subscription, upsert, with_room_wake_override, location_in_use, without_location,
}
use re_terminal_eink_signage.Server.Devices.{wanted, device_auth, new_device_auth, names_of}
use re_terminal_eink_signage.Server.Site.{World}
use re_terminal_eink_signage.Server.Site.Coherent.{SameTables, Fits}

abbrev set_wake : Option Text → Option ℕ → Room → Room
set_wake mode flat r = record r { wake_mode = mode; flat_interval_seconds = flat }

device_auth-update_first :
    (p : Room → Bool) (mode : Option Text) (flat : Option ℕ) (rs : List Room)
    (want : List (Text × List ℕ))
    → device_auth (update_first p (set_wake mode flat) rs) want ≡ device_auth rs want
unfolding device_auth update_first wanted
device_auth-update_first p mode flat [] want = refl
device_auth-update_first p mode flat (r ∷ rs) want = elim (Bool-cases (p r)) [
  | inl e ↦ rw (update_first, e) refl
  | inr e ↦
      rw (update_first, e)
        (elim (Option-cases (wanted r)) [
          | inl f ↦ rw (device_auth, f) (device_auth-update_first p mode flat rs want)
          | inr (b, f) ↦ rw (device_auth, f) (device_auth-update_first p mode flat rs _)
        ])
]

names_of-update_first :
    (p : Room → Bool) (mode : Option Text) (flat : Option ℕ) (rs : List Room)
    (names : List (Text × Text))
    → names_of (update_first p (set_wake mode flat) rs) names ≡ names_of rs names
unfolding names_of update_first
names_of-update_first p mode flat [] names = refl
names_of-update_first p mode flat (r ∷ rs) names = elim (Bool-cases (p r)) [
  | inl e ↦ rw (update_first, e) refl
  | inr e ↦ rw (update_first, e) (names_of-update_first p mode flat rs _)
]

pub Fits-refresh :
    (c d : Config) (edited : ConfigError ⊎ Config) → Fits true c edited → Fits true d edited
Fits-refresh c d (inl e) f = f
Fits-refresh c d (inr next) f = (f.0, inl refl)

module _ (w : World) where
  pub validated-Fits :
      (refresh : Bool) (c next : Config)
      → (refresh ≡ true) ⊎ SameTables c next
      → Fits refresh c (validated w.load_location w.url_parse next)
  unfolding validated
  validated-Fits refresh c next t =
      elim (Option-cases (validate w.load_location w.url_parse next)) [
        | inl e ↦
            rw (validated, e)
              (record { at = validate-IsWellFormed w.load_location w.url_parse next e }, t)
        | inr (x, e) ↦ rw (validated, e) tt
      ]

  pub with_room-Fits :
      (r : Room) (c : Config) → Fits true c (with_room w.load_location w.url_parse r c)
  unfolding with_room
  with_room-Fits r c =
      validated-Fits true c
        (record c { rooms = upsert (λ x. text_eq x.device_id r.device_id) r c.rooms }) (inl refl)

  pub without_room-Fits :
      (id : Text) (c : Config) → Fits true c (without_room w.load_location w.url_parse id c)
  unfolding without_room
  without_room-Fits id c =
      validated-Fits true c
        (record c { rooms = keep_if (λ x. not (text_eq x.device_id id)) c.rooms }) (inl refl)

  pub with_user-Fits :
      (u : User) (c : Config) → Fits true c (with_user w.load_location w.url_parse u c)
  unfolding with_user
  with_user-Fits u c =
      validated-Fits true c
        (record c { users = upsert (λ x. equal_fold x.username u.username) u c.users }) (inl refl)

  pub without_user-Fits :
      (name : Text) (c : Config) → Fits true c (without_user w.load_location w.url_parse name c)
  unfolding without_user
  without_user-Fits name c =
      validated-Fits true c
        (record c { users = keep_if (λ x. not (equal_fold x.username name)) c.users }) (inl refl)

  pub with_location-Fits :
      (l : Location) (c : Config) → Fits true c (with_location w.load_location w.url_parse l c)
  unfolding with_location
  with_location-Fits l c = validated-Fits true c _ (inl refl)

  pub with_default_location-Fits :
      (id : Text) (c : Config)
      → Fits true c (with_default_location w.load_location w.url_parse id c)
  unfolding with_default_location
  with_default_location-Fits id c =
      validated-Fits true c (record c { default_location = id }) (inl refl)

  pub with_wake-Fits :
      (wake : WakeConfig) (c : Config) → Fits false c (with_wake w.load_location w.url_parse wake c)
  unfolding with_wake new_device_auth
  with_wake-Fits wake c = validated-Fits false c (record c { wake = wake }) (inr (refl, refl, refl))

  pub with_alerts-Fits :
      (alerts : AlertConfig) (c : Config)
      → Fits false c (with_alerts w.load_location w.url_parse alerts c)
  unfolding with_alerts new_device_auth
  with_alerts-Fits alerts c =
      validated-Fits false c (record c { alerts = alerts }) (inr (refl, refl, refl))

  pub with_firmware-Fits :
      (fw : FirmwareConfig) (c : Config)
      → Fits false c (with_firmware w.load_location w.url_parse fw c)
  unfolding with_firmware new_device_auth
  with_firmware-Fits fw c =
      validated-Fits false c (record c { firmware = fw }) (inr (refl, refl, refl))

  pub with_fleet_wifi_ssid-Fits :
      (ssid : Text) (c : Config)
      → Fits false c (with_fleet_wifi_ssid w.load_location w.url_parse ssid c)
  unfolding with_fleet_wifi_ssid new_device_auth
  with_fleet_wifi_ssid-Fits ssid c =
      validated-Fits false c (record c { fleet = record c.fleet { wifi_ssid = ssid } })
        (inr (refl, refl, refl))

  pub with_push_subscription-Fits :
      (sub : PushSubscription) (c : Config)
      → Fits false c (with_push_subscription w.load_location w.url_parse sub c)
  unfolding with_push_subscription new_device_auth
  with_push_subscription-Fits sub c =
      validated-Fits false c
        (record c {
          push_subscriptions =
              keep_if (λ e. not (text_eq e.endpoint sub.endpoint)) c.push_subscriptions ++ sub ∷ [];
        })
        (inr (refl, refl, refl))

  pub with_room_wake_override-Fits :
      (device_id : Text) (mode : Option Text) (flat : Option ℕ) (c : Config)
      → Fits false c (with_room_wake_override w.load_location w.url_parse device_id mode flat c)
  unfolding with_room_wake_override new_device_auth
  with_room_wake_override-Fits device_id mode flat c =
      elim (Bool-cases (any (λ r. text_eq r.device_id device_id) c.rooms)) [
        | inl e ↦
            rw (with_room_wake_override, e)
              (validated-Fits false c _ (
                inr (
                  refl,
                  device_auth-update_first _ mode flat c.rooms [],
                  names_of-update_first _ mode flat c.rooms [],
                )))
        | inr e ↦ rw (with_room_wake_override, e) tt
      ]

  pub without_location-Fits :
      (id : Text) (c : Config) → Fits true c (without_location w.load_location w.url_parse id c)
  unfolding without_location
  without_location-Fits id c = elim (Option-cases (location_in_use id c)) [
    | inl e ↦ rw (without_location, e) (validated-Fits true c _ (inl refl))
    | inr (x, e) ↦ rw (without_location, e) tt
  ]
