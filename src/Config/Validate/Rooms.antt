-- ===== src/Config/Validate/Rooms.antt =====
-- The rooms' part of `Validate`, and `validateRoomLabels`, of config.go.
use re_terminal_eink_signage.Base.{
  ℕ, ◌+◌, Bool, not, ◌||◌, Option, none, some, List, [], ◌∷◌, ◌++◌, ltb, ◌==◌, if◌then◌else◌,
  length, Text, text, text_eq, is_empty, lower, lookup, insert,
}
use re_terminal_eink_signage.Config.Types.{Room}
use re_terminal_eink_signage.Config.Checks.{
  ConfigError, bad_room_token, bad_room_wake_mode, duplicate_device_id, duplicate_label,
  label_needed, room_incomplete, reject_if, first_error, contains,
}

unfoldable pub valid_wake_mode : Text → Bool
valid_wake_mode m = is_empty m || text_eq m (text "flat") || text_eq m (text "smart")

-- The loop of `Validate` over the rooms from the i-th on.
unfoldable pub validate_rooms : List Text → ℕ → List Room → Option ConfigError
validate_rooms seen i [] = none
validate_rooms seen i (r ∷ rs) = first_error (
    reject_if (is_empty r.device_id || is_empty r.room) (room_incomplete i)
    ∷ reject_if (contains r.device_id seen) (duplicate_device_id r.device_id)
    ∷ reject_if (not (length r.token_sha256 == 64)) (bad_room_token r.device_id)
    ∷ elim r.wake_mode [
      | none ↦ none
      | some m ↦ reject_if (not (valid_wake_mode m)) (bad_room_wake_mode r.device_id m)
    ]
    ∷ validate_rooms (r.device_id ∷ seen) (i + 1) rs
    ∷ [])

abbrev pub group_at : Text → List (Text × List Room) → List Room
group_at address groups = elim (lookup address groups) [ none ↦ [] | some group ↦ group ]

-- `byRoom`.
unfoldable pub by_room : List Room → List (Text × List Room) → List (Text × List Room)
by_room [] groups = groups
by_room (r ∷ rs) groups =
    by_room rs (insert (lower r.room) (group_at (lower r.room) groups ++ r ∷ []) groups)

-- The loop over the displays of one address; `seen` has the lowered labels.
unfoldable pub validate_labels : List Text → List Room → Option ConfigError
validate_labels seen [] = none
validate_labels seen (r ∷ rs) = first_error (
    reject_if (is_empty r.label) (label_needed r.device_id)
    ∷ reject_if (contains (lower r.label) seen) (duplicate_label r.device_id r.label)
    ∷ validate_labels (lower r.label ∷ seen) rs
    ∷ [])

-- The loop over the addresses. Go goes through a map in any order, so which of two errors is
-- reported is not determined; here it is the one of the address that comes first.
unfoldable pub validate_groups : List (Text × List Room) → Option ConfigError
validate_groups [] = none
validate_groups ((address, group) ∷ groups) = first_error (
    (if ltb (length group) 2 then none else validate_labels [] group) ∷ validate_groups groups ∷ [])

unfoldable pub validate_room_labels : List Room → Option ConfigError
validate_room_labels rooms = validate_groups (by_room rooms [])
