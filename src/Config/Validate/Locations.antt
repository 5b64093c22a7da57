-- ===== src/Config/Validate/Locations.antt =====
-- `validateLocations` of notify.go.
use re_terminal_eink_signage.Base.{
  ℕ, ◌+◌, not, ◌&&◌, ◌||◌, Option, none, List, [], ◌∷◌, map, ltb, length, Text, text, text_eq,
  is_empty, has_prefix,
}
use re_terminal_eink_signage.Config.Types.{Config, Location, Room, User}
use re_terminal_eink_signage.Config.Encodings.{contains_byte, is_blank, valid_email}
use re_terminal_eink_signage.Config.Checks.{
  ConfigError, bad_chat_id, bad_delivery, bad_email, delivery_needs_chat, delivery_needs_email,
  duplicate_location, limited_admin, location_id_missing, location_name_missing,
  location_with_comma, no_default_location, room_unknown_location, unknown_default_location,
  user_location_twice, user_unknown_location, reject_if, first_error, contains,
}

abbrev pub delivery_dm : Text
delivery_dm = text "dm"

abbrev pub delivery_group : Text
delivery_group = text "group"

abbrev pub delivery_both : Text
delivery_both = text "both"

-- The cases for one location, after its id was found to be new.
unfoldable pub validate_location : Location → Option ConfigError
validate_location l =
    let dm = text_eq l.delivery delivery_dm in
    let group = text_eq l.delivery delivery_group in
    let both = text_eq l.delivery delivery_both in
    first_error (
      reject_if (contains_byte 44 l.id) (location_with_comma l.id)
      ∷ reject_if (is_blank l.name) (location_name_missing l.id)
      ∷ reject_if (not (is_empty l.lark_user_email) && not (valid_email l.lark_user_email))
          (bad_email l.id)
      ∷ reject_if (not (is_empty l.lark_chat_id) && not (has_prefix l.lark_chat_id (text "oc_")))
          (bad_chat_id l.id)
      ∷ reject_if (not (is_empty l.delivery) && not (dm || group || both)) (bad_delivery l.id)
      ∷ reject_if ((dm || both) && is_empty l.lark_user_email) (delivery_needs_email l.id)
      ∷ reject_if ((group || both) && is_empty l.lark_chat_id) (delivery_needs_chat l.id)
      ∷ [])

-- The loop over the locations from the i-th on.
unfoldable pub validate_location_list : List Text → ℕ → List Location → Option ConfigError
validate_location_list seen i [] = none
validate_location_list seen i (l ∷ ls) = first_error (
    reject_if (is_empty l.id) (location_id_missing i)
    ∷ reject_if (contains l.id seen) (duplicate_location l.id)
    ∷ validate_location l
    ∷ validate_location_list (l.id ∷ seen) (i + 1) ls
    ∷ [])

-- The loop over one user's locations.
unfoldable pub validate_listed : List Text → Text → List Text → List Text → Option ConfigError
validate_listed known username listed [] = none
validate_listed known username listed (id ∷ ids) = first_error (
    reject_if (not (contains id known)) (user_unknown_location username id)
    ∷ reject_if (contains id listed) (user_location_twice username id)
    ∷ validate_listed known username (id ∷ listed) ids
    ∷ [])

unfoldable pub validate_limits : List Text → List User → Option ConfigError
validate_limits known [] = none
validate_limits known (u ∷ us) = first_error (
    reject_if (text_eq u.role (text "admin") && ltb 0 (length u.locations))
      (limited_admin u.username)
    ∷ validate_listed known u.username [] u.locations
    ∷ validate_limits known us
    ∷ [])

unfoldable pub validate_room_locations : List Text → List Room → Option ConfigError
validate_room_locations known [] = none
validate_room_locations known (r ∷ rs) = first_error (
    reject_if (not (is_empty r.location) && not (contains r.location known))
      (room_unknown_location r.device_id r.location)
    ∷ validate_room_locations known rs
    ∷ [])

-- After its loop without an error, `seen` holds the ids of the locations.
unfoldable pub validate_locations : Config → Option ConfigError
validate_locations c =
    let known = map (λ l. l.id) c.locations in
    first_error (
      validate_location_list [] 0 c.locations
      ∷ validate_limits known c.users
      ∷ reject_if (ltb 0 (length c.locations) && is_empty c.default_location) no_default_location
      ∷ reject_if (not (is_empty c.default_location) && not (contains c.default_location known))
          (unknown_default_location c.default_location)
      ∷ validate_room_locations known c.rooms
      ∷ [])
