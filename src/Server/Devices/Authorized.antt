-- ===== src/Server/Devices/Authorized.antt =====
-- Who may use the routes of the displays.
use re_terminal_eink_signage.Base.{
  ℕ, suc, ◌≡◌, refl, subst, sym, ap, ◌∙◌, ◌⊎◌, inl, inr, Bool, true, false, Option, none, some,
  List, [], ◌∷◌, ◌==◌, length, get_elem?, drop, Bool-cases, Option-cases, some_injective, Text,
  text, text_eq, text_eq→eq, has_prefix, decode_hex, lookup, insert, lookup-insert, if◌then◌else◌,
}
use re_terminal_eink_signage.Config.Types.{Config, Room}
use re_terminal_eink_signage.Config.Wake.{Zone}
use re_terminal_eink_signage.Telemetry.{Report}
use re_terminal_eink_signage.Server.Devices.{
  wanted, device_auth, new_device_auth, Request, Response, Server, plain, verify, handle_display,
  handle_telemetry,
}

-- One of the rooms has the device's id and the hash.
abbrev HasHash : List Room → Text → List ℕ → Type 0
HasHash rooms device b =
    (i : ℕ) × (r : Room) × (get_elem? rooms i ≡ some r)
    × (r.device_id ≡ device)
    × (decode_hex r.token_sha256 ≡ some b)

wanted-decode_hex : (r : Room) (b : List ℕ) → wanted r ≡ some b → decode_hex r.token_sha256 ≡ some b
unfolding wanted
wanted-decode_hex r b h = elim (Option-cases (decode_hex r.token_sha256)) [
  | inl e ↦ let absent = rw (wanted, e) at h in absurd cc
  | inr (c, e) ↦ e ∙ ap some (same (length c == 32) c (rw (wanted, e) at h))
]
  where
    same : (full : Bool) (c : List ℕ) → (if full then some c else none) ≡ some b → c ≡ b
    same true c h = some_injective h
    same false c h = cc

device_auth-HasHash :
    (rooms : List Room) (want : List (Text × List ℕ)) (device : Text) (b : List ℕ)
    → lookup device (device_auth rooms want) ≡ some b
    → HasHash rooms device b ⊎ (lookup device want ≡ some b)
unfolding device_auth
device_auth-HasHash [] want device b h = inr h
device_auth-HasHash (r ∷ rs) want device b h = elim (Option-cases (wanted r)) [
  | inl e ↦ later (device_auth-HasHash rs want device b (rw (device_auth, e) at h))
  | inr (c, e) ↦
      elim (device_auth-HasHash rs (insert r.device_id c want) device b
        (rw (device_auth, e) at h)) [
          | inl found ↦ later (inl found)
          | inr put ↦ elim (Bool-cases (text_eq r.device_id device)) [
            | inl same ↦ inl (
              0,
              r,
              refl,
              text_eq→eq r.device_id device same,
              wanted-decode_hex r b (e ∙ (rw (lookup-insert, same) at put)),
            )
            | inr other ↦ inr (rw (lookup-insert, other) at put)
          ]
        ]
]
  where
    later :
        HasHash rs device b ⊎ (lookup device want ≡ some b)
        → HasHash (r ∷ rs) device b ⊎ (lookup device want ≡ some b)
    later (inl (i, q, at, id, hash)) = inl (suc i, q, at, id, hash)
    later (inr old) = inr old

pub data Route : Type 0 where
  display : Route
  telemetry : Route

module _ (sha256 : Text → List ℕ) where
  -- A room of the configuration has the device's id, and the request bears a token with its hash.
  abbrev pub IsAuthorized : Config → Request → Type 0
  IsAuthorized cfg r =
      HasHash cfg.rooms r.device (sha256 (drop 7 r.authorization))
      × (has_prefix r.authorization (text "Bearer ") ≡ true)

  verify-HasHash :
      (cfg : Config) (r : Request)
      → verify sha256 (new_device_auth cfg) r.device r.authorization ≡ true
      → IsAuthorized cfg r
  unfolding verify new_device_auth lookup
  verify-HasHash cfg r h = elim (Option-cases (lookup r.device (new_device_auth cfg))) [
    | inl e ↦ let unknown = rw (verify, e) at h in absurd cc
    | inr (b, e) ↦ elim (Bool-cases (has_prefix r.authorization (text "Bearer "))) [
      | inl bearer ↦
          let equal = rw (verify, e, bearer) at h in
          let hash = sha256 (drop 7 r.authorization) in
          elim (device_auth-HasHash cfg.rooms [] r.device b e) [
            | inl found ↦
                (subst (HasHash cfg.rooms r.device) (sym (text_eq→eq hash b equal)) found, bearer)
            | inr old ↦ absurd cc
          ]
      | inr bare ↦ let refused = rw (verify, e, bare) at h in absurd cc
    ]
  ]

module _ (sha256 : Text → List ℕ) (load_zone : Text → Zone) (decode : Text → Option Report) where
  abbrev pub handle : Route → Request → ℕ → Server → Option Response × Server
  handle display = handle_display sha256 load_zone decode
  handle telemetry = handle_telemetry sha256 load_zone decode

  handle-refused :
      (route : Route) (r : Request) (now : ℕ) (s : Server)
      → verify sha256 s.auth r.device r.authorization ≡ false
      → handle route r now s ≡ (some (plain 401), s)
  unfolding handle_display handle_telemetry
  handle-refused display r now s e = rw (handle_display, e) refl
  handle-refused telemetry r now s e = rw (handle_telemetry, e) refl

  -- A request of a display is answered with 401 and changes nothing, unless a room of the
  -- configuration has the display's id and the request bears the token of just that room. (The table
  -- of hashes is the one that was made for the configuration.)
  pub handle-IsAuthorized :
      (route : Route) (r : Request) (now : ℕ) (s : Server)
      → s.auth ≡ new_device_auth s.cfg
      → (handle route r now s ≡ (some (plain 401), s)) ⊎ IsAuthorized sha256 s.cfg r
  handle-IsAuthorized route r now s fresh =
      elim (Bool-cases (verify sha256 s.auth r.device r.authorization)) [
        | inl e ↦ inr (verify-HasHash sha256 s.cfg r (rw fresh at e))
        | inr e ↦ inl (handle-refused route r now s e)
      ]
