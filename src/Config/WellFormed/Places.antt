-- ===== src/Config/WellFormed/Places.antt =====
-- What `Validate` checks of the locations, and of the rooms and accounts that name one.
use re_terminal_eink_signage.Base.{
  ℕ, ◌+◌, ◌≡◌, refl, subst, sym, ◌∙◌, ◌⊎◌, inl, inr, true, false, not, ◌&&◌, none, List, [], ◌∷◌,
  map, arith, ltb, length, All, All-map, Bool-cases, is_some, Text, text, text_eq, is_empty,
}
use re_terminal_eink_signage.Config.Types.{
  Config, Location, Room, User, find_location, location_by_id, location_of,
}
use re_terminal_eink_signage.Config.Checks.{
  contains, first_error-none, reject_if-none, Unseen, Distinct, Unseen-Distinct,
}
use re_terminal_eink_signage.Config.Validate.Locations.{
  validate_listed, validate_limits, validate_location_list, validate_locations,
  validate_room_locations,
}

-- `LocationByID` finds it.
abbrev pub IsKnown : Config → Text → Type 0
IsKnown c id = is_some (location_by_id c id) ≡ true

-- A location to route to, or none at all if there are no locations.
abbrev pub IsPlace : Config → Text → Type 0
IsPlace c id = (length c.locations ≡ 0) × (is_empty id ≡ true) ⊎ IsKnown c id

-- An alert of the room has a location to go to, if there are locations at all.
abbrev pub IsRouted : Config → Room → Type 0
IsRouted c r = IsPlace c (location_of c r)

-- An account is limited to locations that exist, each named once, and an administrator's is not.
abbrev pub IsLimited : Config → User → Type 0
IsLimited c u =
    (text_eq u.role (text "admin") ≡ true → length u.locations ≡ 0)
    × All (IsKnown c) u.locations
    × Distinct u.locations

abbrev pub Located : Config → Type 0
Located c =
    All (λ l. is_empty l.id ≡ false) c.locations
    × Distinct (map (λ l. l.id) c.locations)
    × IsPlace c c.default_location
    × All (IsRouted c) c.rooms
    × All (IsLimited c) c.users

abbrev ids : Config → List Text
ids c = map (λ l. l.id) c.locations

contains-find :
    (id : Text) (ls : List Location)
    → contains id (map (λ l. l.id) ls) ≡ is_some (find_location id ls)
unfolding contains find_location
contains-find id [] = refl
contains-find id (l ∷ ls) = ground (arith, contains-find id ls)

contains-IsKnown : (c : Config) (id : Text) → contains id (ids c) ≡ true → IsKnown c id
unfolding location_by_id
contains-IsKnown c id h = sym (contains-find id c.locations) ∙ h

validate_location_list-none :
    (seen : List Text) (i : ℕ) (ls : List Location)
    → validate_location_list seen i ls ≡ none
    → All (λ l. is_empty l.id ≡ false) ls × Unseen seen (map (λ l. l.id) ls)
unfolding validate_location_list Unseen
validate_location_list-none seen i [] h = (tt, tt)
validate_location_list-none seen i (l ∷ ls) h =
    let (named, (new, (_, (rest, _)))) = first_error-none _ h in
    let (all, unseen) = validate_location_list-none (l.id ∷ seen) (i + 1) ls rest in
    ((reject_if-none _ _ named, all), (reject_if-none _ _ new, unseen))

validate_listed-none :
    (known : List Text) (username : Text) (listed places : List Text)
    → validate_listed known username listed places ≡ none
    → All (λ id. contains id known ≡ true) places × Unseen listed places
unfolding validate_listed Unseen
validate_listed-none known username listed [] h = (tt, tt)
validate_listed-none known username listed (id ∷ places) h =
    let (found, (new, (rest, _))) = first_error-none _ h in
    let (all, unseen) = validate_listed-none known username (id ∷ listed) places rest in
    let f = reject_if-none _ _ found in ((ground (arith, f), all), (reject_if-none _ _ new, unseen))

validate_limits-IsLimited :
    (c : Config) (users : List User)
    → validate_limits (ids c) users ≡ none
    → All (IsLimited c) users
unfolding validate_limits
validate_limits-IsLimited c [] h = tt
validate_limits-IsLimited c (u ∷ us) h =
    let (free, (listed, (rest, _))) = first_error-none _ h in
    let (all, unseen) = validate_listed-none (ids c) u.username [] u.locations listed in
    let f = reject_if-none _ _ free in
    (
      (
        (λ admin. ground (arith, f, admin)),
        All-map (contains-IsKnown c) u.locations all,
        Unseen-Distinct [] u.locations unseen,
      ),
      validate_limits-IsLimited c us rest,
    )

default-IsPlace :
    (c : Config)
    → (ltb 0 (length c.locations) && is_empty c.default_location) ≡ false
    → (not (is_empty c.default_location) && not (contains c.default_location (ids c))) ≡ false
    → IsPlace c c.default_location
default-IsPlace c needed found = elim (Bool-cases (is_empty c.default_location)) [
  | inl e ↦ inl (ground (arith, needed, e), e)
  | inr e ↦ inr (contains-IsKnown c c.default_location (ground (arith, found, e)))
]

module _ (c : Config) (default : IsPlace c c.default_location) where
  room-IsRouted :
      (r : Room)
      → (not (is_empty r.location) && not (contains r.location (ids c))) ≡ false
      → IsRouted c r
  unfolding location_of
  room-IsRouted r h = elim (Bool-cases (is_empty r.location)) [
    | inl e ↦ subst (IsPlace c) (ground (arith, e)) default
    | inr e ↦
        subst (IsPlace c) (ground (arith, e))
          (inr (contains-IsKnown c r.location (ground (arith, h, e))))
  ]

  validate_room_locations-IsRouted :
      (rooms : List Room) → validate_room_locations (ids c) rooms ≡ none → All (IsRouted c) rooms
  unfolding validate_room_locations
  validate_room_locations-IsRouted [] h = tt
  validate_room_locations-IsRouted (r ∷ rs) h =
      let (here, (rest, _)) = first_error-none _ h in
      (room-IsRouted r (reject_if-none _ _ here), validate_room_locations-IsRouted rs rest)

pub validate_locations-Located : (c : Config) → validate_locations c ≡ none → Located c
unfolding validate_locations
validate_locations-Located c h =
    let (list, (limits, (needed, (found, (rooms, _))))) = first_error-none _ h in
    let (named, unseen) = validate_location_list-none [] 0 c.locations list in
    let default = default-IsPlace c (reject_if-none _ _ needed) (reject_if-none _ _ found) in
    (
      named,
      Unseen-Distinct [] _ unseen,
      default,
      validate_room_locations-IsRouted c default c.rooms rooms,
      validate_limits-IsLimited c c.users limits,
    )
