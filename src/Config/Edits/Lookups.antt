-- ===== src/Config/Edits/Lookups.antt =====
-- What a lookup finds after an edit of rooms and accounts.
use re_terminal_eink_signage.Base.{
  ◌≡◌, refl, ap, ◌∙◌, sym, ◌⊎◌, inr, Bool, not, Option, none, some, List, [], ◌∷◌, arith,
  if◌then◌else◌, keep_if, Text, text_eq, text_eq_iff, equal_fold, fold,
}
use re_terminal_eink_signage.Config.Types.{
  Config, Room, User, find_room, find_user, room_by_device_id, user_by_username,
}
use re_terminal_eink_signage.Config.Checks.{ConfigError}
use re_terminal_eink_signage.Config.Edits.{
  upsert, validated-inr, with_room, without_room, with_user, without_user,
}

find_room-upsert :
    (r : Room) (d : Text) (rs : List Room)
    → find_room d (upsert (λ s. text_eq s.device_id r.device_id) r rs)
      ≡ (if text_eq r.device_id d then some r else find_room d rs)
unfolding find_room upsert
find_room-upsert r d [] = refl
find_room-upsert r d (s ∷ rs) = ground (
  arith,
  text_eq_iff s.device_id r.device_id,
  text_eq_iff s.device_id d,
  text_eq_iff r.device_id d,
  find_room-upsert r d rs,
)

find_room-keep_if :
    (gone d : Text) (rs : List Room)
    → find_room d (keep_if (λ r. not (text_eq r.device_id gone)) rs)
      ≡ (if text_eq gone d then none else find_room d rs)
unfolding find_room
find_room-keep_if gone d [] = ground arith
find_room-keep_if gone d (s ∷ rs) = ground (
  arith,
  text_eq_iff s.device_id gone,
  text_eq_iff s.device_id d,
  text_eq_iff gone d,
  find_room-keep_if gone d rs,
)

find_user-upsert :
    (u : User) (name : Text) (us : List User)
    → find_user name (upsert (λ v. equal_fold v.username u.username) u us)
      ≡ (if equal_fold u.username name then some u else find_user name us)
unfolding find_user upsert equal_fold
find_user-upsert u name [] = refl
find_user-upsert u name (v ∷ us) = ground (
  arith,
  text_eq_iff (fold v.username) (fold u.username),
  text_eq_iff (fold v.username) (fold name),
  text_eq_iff (fold u.username) (fold name),
  find_user-upsert u name us,
)

find_user-keep_if :
    (gone name : Text) (us : List User)
    → find_user name (keep_if (λ u. not (equal_fold u.username gone)) us)
      ≡ (if equal_fold gone name then none else find_user name us)
unfolding find_user equal_fold
find_user-keep_if gone name [] = ground arith
find_user-keep_if gone name (v ∷ us) = ground (
  arith,
  text_eq_iff (fold v.username) (fold gone),
  text_eq_iff (fold v.username) (fold name),
  text_eq_iff (fold gone) (fold name),
  find_user-keep_if gone name us,
)

-- The edits of rooms, and what a lookup finds after one, from what it found before.
pub data RoomEdit : Type 0 where
  sets_room : Room → RoomEdit
  removes_room : Text → RoomEdit

unfoldable pub room_after : RoomEdit → Text → Option Room → Option Room
room_after (sets_room r) d before = if text_eq r.device_id d then some r else before
room_after (removes_room gone) d before = if text_eq gone d then none else before

pub data UserEdit : Type 0 where
  sets_user : User → UserEdit
  removes_user : Text → UserEdit

unfoldable pub user_after : UserEdit → Text → Option User → Option User
user_after (sets_user u) name before = if equal_fold u.username name then some u else before
user_after (removes_user gone) name before = if equal_fold gone name then none else before

module _ (load_location : Text → Bool) (url_parse : Text → Option (Text × Text)) where
  unfoldable pub edit_room : RoomEdit → Config → ConfigError ⊎ Config
  edit_room (sets_room r) = with_room load_location url_parse r
  edit_room (removes_room gone) = without_room load_location url_parse gone

  unfoldable pub edit_user : UserEdit → Config → ConfigError ⊎ Config
  edit_user (sets_user u) = with_user load_location url_parse u
  edit_user (removes_user gone) = without_user load_location url_parse gone

  -- After an accepted edit of a room its id finds the room that was given, or nothing if it was
  -- removed, and every other id finds what it found before.
  room_by_device_id-edit_room :
      (e : RoomEdit) (c next : Config) (d : Text)
      → edit_room e c ≡ inr next
      → room_by_device_id next d ≡ room_after e d (room_by_device_id c d)
  unfolding edit_room room_after with_room without_room room_by_device_id
  room_by_device_id-edit_room (sets_room r) c next d h =
      ap (λ n. find_room d n.rooms) (sym (validated-inr load_location url_parse _ next h).0)
      ∙ find_room-upsert r d c.rooms
  room_by_device_id-edit_room (removes_room gone) c next d h =
      ap (λ n. find_room d n.rooms) (sym (validated-inr load_location url_parse _ next h).0)
      ∙ find_room-keep_if gone d c.rooms

  -- After an accepted edit of an account its name, in any case, finds the account that was given, or
  -- nothing if it was removed, and every other name finds what it found before.
  pub user_by_username-edit_user :
      (e : UserEdit) (c next : Config) (name : Text)
      → edit_user e c ≡ inr next
      → user_by_username next name ≡ user_after e name (user_by_username c name)
  unfolding edit_user user_after with_user without_user user_by_username
  user_by_username-edit_user (sets_user u) c next name h =
      ap (λ n. find_user name n.users) (sym (validated-inr load_location url_parse _ next h).0)
      ∙ find_user-upsert u name c.users
  user_by_username-edit_user (removes_user gone) c next name h =
      ap (λ n. find_user name n.users) (sym (validated-inr load_location url_parse _ next h).0)
      ∙ find_user-keep_if gone name c.users
