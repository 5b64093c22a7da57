-- ===== src/Examples/Settings.antt =====
-- Theorems about the fleet and its accounts.
use re_terminal_eink_signage.Base.{◌≡◌, refl, inr, [], ◌∷◌, text, text_eq}
use re_terminal_eink_signage.Config.Types.{can_see_location, limited, can_see_room}
use re_terminal_eink_signage.Config.Checks.{first_error, reject_if}
use re_terminal_eink_signage.Config.WellFormed.{IsWellFormed, validate-IsWellFormed}
use re_terminal_eink_signage.Config.Edits.{validated-none, location_in_use, without_location}
use re_terminal_eink_signage.Config.Edits.Access.{without_location-can_see_room}
use re_terminal_eink_signage.Examples.Fleet.{
  known_zone, parsed, wall, bob, place, fleet, variants_valid,
}

validate-IsWellFormed_example : IsWellFormed fleet
validate-IsWellFormed_example = validate-IsWellFormed known_zone parsed fleet variants_valid.0

less_lab :
    without_location known_zone parsed (text "lab") fleet
    ≡ inr (record fleet { locations = place (text "hq") ∷ [] })
unfolding without_location location_in_use first_error reject_if text_eq can_see_location limited
less_lab = validated-none known_zone parsed _ variants_valid.3

without_location-can_see_room_example :
    can_see_room (record fleet { locations = place (text "hq") ∷ [] }) bob wall
    ≡ can_see_room fleet bob wall
without_location-can_see_room_example =
    without_location-can_see_room known_zone parsed fleet _ (text "lab") 1 bob wall less_lab refl
