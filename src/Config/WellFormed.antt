-- ===== src/Config/WellFormed.antt =====
-- The configurations that the broker may run on, and those that `Validate` accepts.
mod Rooms
mod Users
mod Places
pub use Rooms.{Provisioned, Labelled}
pub use Users.{Accounts, is_admin}
pub use Places.{IsKnown, IsPlace, IsRouted, IsLimited, Located}
use Rooms.{validate_rooms-Provisioned, validate_room_labels-Labelled}
use Users.{validate_users-Accounts}
use Places.{validate_locations-Located}
use re_terminal_eink_signage.Base.{◌<◌, ◌≡◌, Bool, Option, none, arith, length, Text}
use re_terminal_eink_signage.Config.Types.{Config}
use re_terminal_eink_signage.Config.Checks.{first_error-none, reject_if-none}
use re_terminal_eink_signage.Config.Validate.{validate}

-- There is a display; each has an id of its own, an address and a token, and those of one address
-- have labels that differ. If anyone can log in, the accounts are usable, their names differ in any
-- case, and one is an administrator's. Location ids are not empty and differ, the default and every
-- room's location is known if there are any, and each account is limited to known ones, an
-- administrator's to none.
abbrev pub IsWellFormed : Config → Type 0
IsWellFormed c =
    (0 < length c.rooms) × Provisioned c.rooms × Labelled c.rooms × Accounts c × Located c

-- `Validate` accepts only well-formed configurations: what a room, an account and a location must
-- have, that their keys differ, and that no reference between them dangles.
pub validate-IsWellFormed :
    (load_location : Text → Bool) (url_parse : Text → Option (Text × Text)) (c : Config)
    → validate load_location url_parse c ≡ none
    → IsWellFormed c
unfolding validate
validate-IsWellFormed load_location url_parse c h =
    let (
      _,
      (some_room, (rooms, (labels, (_, (_, (_, (_, (_, (_, (users, (_, (places, _)))))))))))),
    ) =
      first_error-none _ h in
    let r = reject_if-none _ _ some_room in
    (
      ground (arith, r),
      validate_rooms-Provisioned c.rooms rooms,
      validate_room_labels-Labelled c.rooms labels,
      validate_users-Accounts c users,
      validate_locations-Located c places,
    )
