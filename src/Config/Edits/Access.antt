-- ===== src/Config/Edits/Access.antt =====
-- What an edit of locations does to what accounts may see.
use re_terminal_eink_signage.Base.{
  ℕ, ◌≡◌, refl, sym, ap, ◌∙◌, inl, inr, Bool, true, false, not, Option, some, List, [], ◌∷◌, arith,
  length, Text, text_eq, subst, All, All-get, Bool-cases, Option-cases, is_some, is_empty,
  get_elem?, if◌then◌else◌,
}
use re_terminal_eink_signage.Config.Types.{
  Config, Location, Room, User, can_see_room, can_see_location, location_of, limited,
  location_by_id, find_location,
}
use re_terminal_eink_signage.Config.WellFormed.{IsKnown, IsLimited, Located, validate-IsWellFormed}
use re_terminal_eink_signage.Config.Edits.{
  validated-inr, remove_location, location_in_use, without_location,
}

no_empty_id :
    (ls : List Location)
    → All (λ l. is_empty l.id ≡ false) ls
    → is_some (find_location [] ls) ≡ false
unfolding find_location text_eq
no_empty_id [] a = refl
no_empty_id (l ∷ ls) a = ground (arith, no_empty_id ls a.1, a.0)

empty_is : (t : Text) → is_empty t ≡ true → t ≡ []
empty_is [] h = refl
empty_is (b ∷ t) h = cc

no_location : (c : Config) → Located c → is_empty c.default_location ≡ true → length c.locations ≡ 0
unfolding location_by_id
no_location c (named, _, default, _, _) e = elim default [
  | inl (h, _) ↦ h
  | inr known ↦
      let absent = rw (empty_is c.default_location e, no_empty_id c.locations named) at known in
      absurd cc
]

none_known :
    (ls : List Location) (id : Text) → length ls ≡ 0 → is_some (find_location id ls) ≡ true → ⊥
unfolding find_location
none_known [] id h k = cc
none_known (l ∷ ls) id h k = omega (arith, h)

unlisted :
    (c : Config) (places : List Text)
    → length c.locations ≡ 0
    → All (IsKnown c) places
    → length places ≡ 0
unfolding location_by_id
unlisted c [] h a = refl
unlisted c (p ∷ places) h a = absurd (none_known c.locations p h a.0)

sees_all :
    (c : Config) (u : User) (place : Text)
    → length c.locations ≡ 0
    → IsLimited c u
    → can_see_location u place ≡ true
unfolding can_see_location limited
sees_all c u place h (_, known, _) =
    let free = unlisted c u.locations h known in ground (arith, free)

removal-can_see_room :
    (c : Config) (id : Text) (i : ℕ) (u : User) (r : Room)
    → Located (remove_location id c)
    → get_elem? c.users i ≡ some u
    → can_see_room (remove_location id c) u r ≡ can_see_room c u r
unfolding can_see_room location_of
removal-can_see_room c id i u r located at = elim (Bool-cases (text_eq c.default_location id)) [
  | inl e ↦
      let none_left = no_location (remove_location id c) located (rw e refl) in
      let free = All-get (IsLimited (remove_location id c)) c.users i u located.4 at in
      sees_all (remove_location id c) u _ none_left free
      ∙ sym (sees_all (remove_location id c) u _ none_left free)
  | inr e ↦
      ap (λ d. can_see_location u (if not (is_empty r.location) then r.location else d)) (rw e refl)
]

module _ (load_location : Text → Bool) (url_parse : Text → Option (Text × Text)) where
  -- An accepted removal of a location changes for no account which rooms it sees.
  pub without_location-can_see_room :
      (c next : Config) (id : Text) (i : ℕ) (u : User) (r : Room)
      → without_location load_location url_parse id c ≡ inr next
      → get_elem? c.users i ≡ some u
      → can_see_room next u r ≡ can_see_room c u r
  unfolding without_location
  without_location-can_see_room c next id i u r h at = elim (Option-cases (location_in_use id c)) [
    | inr (x, e) ↦ let refused = rw (e, without_location) at h in absurd cc
    | inl e ↦
        let accepted = rw (e, without_location) at h in
        let (same, valid) = validated-inr load_location url_parse _ next accepted in
        let (_, _, _, _, located) = validate-IsWellFormed load_location url_parse _ valid in
        subst (λ n. can_see_room n u r ≡ can_see_room c u r) same
          (removal-can_see_room c id i u r located at)
  ]
