-- ===== src/Config/WellFormed/Rooms.antt =====
-- What `Validate` checks of the rooms and of their labels.
use mathlib.Core.List.{append-nil, append_assoc}
use re_terminal_eink_signage.Base.{
  ℕ, ◌+◌, ◌≡◌, refl, subst, sym, ap, ◌∙◌, inl, inr, Bool, true, false, none, List, [], ◌∷◌, ◌++◌,
  map, arith, ltb, Bool-cases, length, All, Pairwise, All-map, All-keep_if, keep_if, Text, text_eq,
  text_eq_iff, text_eq_refl, is_empty, lower, lookup, insert, lookup-insert, if◌then◌else◌,
}
use re_terminal_eink_signage.Config.Types.{Room}
use re_terminal_eink_signage.Config.Checks.{
  contains, first_error-none, reject_if-none, Unseen, Distinct, Unseen-Distinct,
}
use re_terminal_eink_signage.Config.Validate.Rooms.{
  validate_rooms, group_at, by_room, validate_labels, validate_groups, validate_room_labels,
}

-- A display has an id, an address and the hash of a token.
abbrev pub IsProvisioned : Room → Type 0
IsProvisioned r =
    (is_empty r.device_id ≡ false) × (is_empty r.room ≡ false) × (length r.token_sha256 ≡ 64)

abbrev pub Provisioned : List Room → Type 0
Provisioned rooms = All IsProvisioned rooms × Distinct (map (λ r. r.device_id) rooms)

-- Labels that a reader can tell apart.
abbrev pub Differ : Room → Room → Type 0
Differ r r' =
    (is_empty r.label ≡ false)
    × (is_empty r'.label ≡ false)
    × (text_eq (lower r.label) (lower r'.label) ≡ false)

-- Two displays of one address, in any case, have such labels.
abbrev pub Labelled : List Room → Type 0
Labelled rooms =
    Pairwise (λ r r'. text_eq (lower r'.room) (lower r.room) ≡ true → Differ r r') rooms

validate_rooms-none :
    (seen : List Text) (i : ℕ) (rooms : List Room)
    → validate_rooms seen i rooms ≡ none
    → All IsProvisioned rooms × Unseen seen (map (λ r. r.device_id) rooms)
unfolding validate_rooms Unseen
validate_rooms-none seen i [] h = (tt, tt)
validate_rooms-none seen i (r ∷ rs) h =
    let (complete, (new, (token, (mode, (rest, _))))) = first_error-none _ h in
    let (all, unseen) = validate_rooms-none (r.device_id ∷ seen) (i + 1) rs rest in
    let c = reject_if-none _ _ complete in
    let t = reject_if-none _ _ token in
    (
      ((ground (arith, c), ground (arith, c), ground (arith, t)), all),
      (reject_if-none _ _ new, unseen),
    )

pub validate_rooms-Provisioned :
    (rooms : List Room) → validate_rooms [] 0 rooms ≡ none → Provisioned rooms
validate_rooms-Provisioned rooms h =
    let (all, unseen) = validate_rooms-none [] 0 rooms h in (all, Unseen-Distinct [] _ unseen)

abbrev at_address : Text → Room → Bool
at_address k r = text_eq (lower r.room) k

group_at-insert :
    (k address : Text) (group : List Room) (groups : List (Text × List Room))
    → group_at k (insert address group groups)
      ≡ (if text_eq address k then group else group_at k groups)
group_at-insert k address group groups = ground (arith, lookup-insert address k group groups)

group_at-by_room :
    (k : Text) (rooms : List Room) (groups : List (Text × List Room))
    → group_at k (by_room rooms groups) ≡ group_at k groups ++ keep_if (at_address k) rooms
unfolding by_room
group_at-by_room k [] groups = sym (append-nil _)
group_at-by_room k (r ∷ rs) groups =
    let group = group_at (lower r.room) groups ++ r ∷ [] in
    group_at-by_room k rs (insert (lower r.room) group groups)
    ∙ ap (λ g. g ++ keep_if (at_address k) rs) (group_at-insert k (lower r.room) group groups)
    ∙ elim (Bool-cases (text_eq (lower r.room) k)) [
      | inl e ↦
          rw (e, append_assoc)
            (ap (λ j. group_at j groups ++ r ∷ keep_if (at_address k) rs)
              ((text_eq_iff (lower r.room) k).0 e))
      | inr e ↦ rw e refl
    ]

validate_labels-none :
    (seen : List Text) (group : List Room)
    → validate_labels seen group ≡ none
    → All (λ r. (is_empty r.label ≡ false) × (contains (lower r.label) seen ≡ false)) group
      × Pairwise Differ group
unfolding validate_labels contains
validate_labels-none seen [] h = (tt, tt)
validate_labels-none seen (r ∷ rs) h =
    let (labelled, (new, (rest, _))) = first_error-none _ h in
    let (all, pairs) = validate_labels-none (lower r.label ∷ seen) rs rest in
    let l = reject_if-none _ _ labelled in
    (
      ((l, reject_if-none _ _ new), All-map (λ r' p. (p.0, ground (arith, p.1))) rs all),
      (All-map (λ r' p. (l, p.0, ground (arith, p.1))) rs all, pairs),
    )

group-Differ :
    (group : List Room)
    → (if ltb (length group) 2 then none else validate_labels [] group) ≡ none
    → Pairwise Differ group
group-Differ [] h = tt
group-Differ (r ∷ []) h = (tt, tt)
group-Differ (r ∷ r' ∷ rs) h = (validate_labels-none [] (r ∷ r' ∷ rs) (ground (arith, h))).1

validate_groups-at :
    (k : Text) (groups : List (Text × List Room))
    → validate_groups groups ≡ none
    → Pairwise Differ (group_at k groups)
unfolding validate_groups lookup
validate_groups-at k [] h = tt
validate_groups-at k ((address, group) ∷ groups) h =
    let (here, (rest, _)) = first_error-none _ h in
    elim (Bool-cases (text_eq address k)) [
      | inl e ↦ subst (Pairwise Differ) (ground (arith, e)) (group-Differ group here)
      | inr e ↦ subst (Pairwise Differ) (ground (arith, e)) (validate_groups-at k groups rest)
    ]

Labelled-of-groups :
    (rooms : List Room)
    → ((k : Text) → Pairwise Differ (keep_if (at_address k) rooms))
    → Labelled rooms
Labelled-of-groups [] h = tt
Labelled-of-groups (r ∷ rs) h = (
  All-keep_if (Differ r) (at_address (lower r.room)) rs
      (rw (text_eq_refl (lower r.room)) at (h (lower r.room))).0,
  Labelled-of-groups rs (λ k. elim (Bool-cases (text_eq (lower r.room) k)) [
    | inl e ↦ (rw e at (h k)).1
    | inr e ↦ rw e at (h k)
  ]),
)

pub validate_room_labels-Labelled :
    (rooms : List Room) → validate_room_labels rooms ≡ none → Labelled rooms
unfolding validate_room_labels lookup
validate_room_labels-Labelled rooms h =
    Labelled-of-groups rooms
      (λ k. rw (group_at-by_room k rooms []) at (validate_groups-at k (by_room rooms []) h))
