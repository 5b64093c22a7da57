-- ===== src/Server/Stale/Shown.antt =====
-- The checks for silent displays and the status page.
use re_terminal_eink_signage.Base.{
  ℕ, zero, suc, ◌-◌, ◌≡◌, refl, sym, ap, ◌∙◌, Bool, true, false, Option, none, some, List, [], ◌∷◌,
  arith, ltb, if◌then◌else◌, map, get_elem?, Text, text, text_eq, text_eq→eq, text_eq_refl,
  some_injective, Option-cases, Bool-cases, inl, inr,
}
use re_terminal_eink_signage.Config.Types.{Config, Room}
use re_terminal_eink_signage.Notify.{Settings, DevState, Manager, dev_of, stale_latch}
use re_terminal_eink_signage.Notify.Stale.{stale-dev_of}
use re_terminal_eink_signage.Status.{Device, stale_threshold, status_of, device_of, build}
use re_terminal_eink_signage.Server.Stale.{check_room, check_rooms, check_stale}
use re_terminal_eink_signage.Telemetry.{Store, Snapshot, snapshot}

latch-alerting :
    (s : Settings) (is_stale : Bool) (silent now : ℕ) (st : DevState)
    → (stale_latch s is_stale silent now st).1.alerting ≡ is_stale
unfolding stale_latch
latch-alerting s is_stale silent now st = ground arith

get_elem?-map_inv {ℓ κ} :
    {A : Type ℓ} {B : Type κ} (f : A → B) (xs : List A) (i : ℕ) (y : B)
    → get_elem? (map f xs) i ≡ some y
    → (x : A) × (get_elem? xs i ≡ some x) × (f x ≡ y)
get_elem?-map_inv f [] i y h = cc
get_elem?-map_inv f (x ∷ xs) zero y h = (x, refl, some_injective h)
get_elem?-map_inv f (x ∷ xs) (suc i) y h = get_elem?-map_inv f xs i y h

module _ (cfg : Config) (tlm : Store) (now : ℕ) (d : Text) where
  check_room-none :
      (room : Room) (m : Manager)
      → snapshot d tlm ≡ none
      → dev_of d (check_room cfg now room (snapshot room.device_id tlm) m).1.stale
        ≡ dev_of d m.stale
  unfolding check_room
  check_room-none room m h = elim (Option-cases (snapshot room.device_id tlm)) [
    | inl e ↦ rw e refl
    | inr (snap, e) ↦ elim (Bool-cases (text_eq room.device_id d)) [
      | inl k ↦
          let same = ap (λ id. snapshot id tlm) (text_eq→eq room.device_id d k) in
          let clash = sym e ∙ same ∙ h in absurd cc
      | inr k ↦ rw e (stale-dev_of d room.device_id room.name _ _ now m ∙ rw k refl)
    ]
  ]

  check_rooms-none :
      (rooms : List Room) (m : Manager)
      → snapshot d tlm ≡ none
      → dev_of d (check_rooms cfg tlm now rooms m).1.stale ≡ dev_of d m.stale
  unfolding check_rooms
  check_rooms-none [] m h = refl
  check_rooms-none (room ∷ rooms) m h = check_rooms-none rooms _ h ∙ check_room-none room m h

  module _ (snap : Snapshot) (reported : snapshot d tlm ≡ some snap) where
    abbrev is_stale : Bool
    is_stale = ltb (stale_threshold cfg snap) (now - snap.last_seen)

    check_room-own :
        (room : Room) (m : Manager)
        → text_eq room.device_id d ≡ true
        → (dev_of d (check_room cfg now room (snapshot room.device_id tlm) m).1.stale).alerting
          ≡ is_stale
    unfolding check_room
    check_room-own room m k =
        let same = ap (λ id. snapshot id tlm) (text_eq→eq room.device_id d k) ∙ reported in
        rw same (
          ap (λ st. st.alerting) (stale-dev_of d room.device_id room.name is_stale _ now m)
          ∙ rw k (latch-alerting _ is_stale _ now _))

    check_room-keeps :
        (room : Room) (m : Manager)
        → (dev_of d m.stale).alerting ≡ is_stale
        → (dev_of d (check_room cfg now room (snapshot room.device_id tlm) m).1.stale).alerting
          ≡ is_stale
    unfolding check_room
    check_room-keeps room m h = elim (Bool-cases (text_eq room.device_id d)) [
      | inl k ↦ check_room-own room m k
      | inr k ↦ elim (Option-cases (snapshot room.device_id tlm)) [
        | inl e ↦ rw e h
        | inr (other, e) ↦
            rw e
              (ap (λ st. st.alerting) (stale-dev_of d room.device_id room.name _ _ now m) ∙ rw k h)
      ]
    ]

    check_rooms-keeps :
        (rooms : List Room) (m : Manager)
        → (dev_of d m.stale).alerting ≡ is_stale
        → (dev_of d (check_rooms cfg tlm now rooms m).1.stale).alerting ≡ is_stale
    unfolding check_rooms
    check_rooms-keeps [] m h = h
    check_rooms-keeps (room ∷ rooms) m h = check_rooms-keeps rooms _ (check_room-keeps room m h)

    check_rooms-own :
        (rooms : List Room) (m : Manager) (i : ℕ) (room : Room)
        → get_elem? rooms i ≡ some room
        → text_eq room.device_id d ≡ true
        → (dev_of d (check_rooms cfg tlm now rooms m).1.stale).alerting ≡ is_stale
    unfolding check_rooms
    check_rooms-own [] m i room at own = cc
    check_rooms-own (r ∷ rooms) m zero room at own =
        let first = ap (λ (x : Room). text_eq x.device_id d) (some_injective at) ∙ own in
        check_rooms-keeps rooms _ (check_room-own r m first)
    check_rooms-own (r ∷ rooms) m (suc i) room at own = check_rooms-own rooms _ i room at own

status_of-stale :
    (cfg : Config) (now : ℕ) (snap : Snapshot)
    → (text_eq (status_of cfg now snap) (text "stale")
        ≡ ltb (stale_threshold cfg snap) (now - snap.last_seen))
      × (text_eq (status_of cfg now snap) (text "unreported") ≡ false)
unfolding status_of text_eq
status_of-stale cfg now snap = (ground arith, ground arith)

-- The status page and the alerts never disagree about a silent display: after a check, whatever was
-- alerted before it, the manager has a display of the configuration down as silent exactly if the
-- page of that moment shows it as stale; and for one that the page shows as unreported it has what
-- it had before the check.
pub check_stale-shown :
    (cfg : Config) (tlm : Store) (now : ℕ) (m : Manager) (i : ℕ) (row : Device)
    → get_elem? (build cfg tlm now) i ≡ some row
    → (if text_eq row.status (text "unreported")
        then dev_of row.device_id (check_stale cfg tlm now m).1.stale ≡ dev_of row.device_id m.stale
        else (dev_of row.device_id (check_stale cfg tlm now m).1.stale).alerting
          ≡ text_eq row.status (text "stale"))
unfolding build device_of text_eq
check_stale-shown cfg tlm now m i row at =
    let (room, there, made) = get_elem?-map_inv _ cfg.rooms i row at in
    by_snapshot room there (snapshot room.device_id tlm) refl made
  where
    by_snapshot :
        (room : Room)
        → get_elem? cfg.rooms i ≡ some room
        → (o : Option Snapshot) → snapshot room.device_id tlm ≡ o
        → device_of cfg now room o ≡ row
        → (if text_eq row.status (text "unreported")
            then dev_of row.device_id (check_stale cfg tlm now m).1.stale
              ≡ dev_of row.device_id m.stale
            else (dev_of row.device_id (check_stale cfg tlm now m).1.stale).alerting
              ≡ text_eq row.status (text "stale"))
    by_snapshot room there none e made =
        rw (sym made) (check_rooms-none cfg tlm now room.device_id cfg.rooms m e)
    by_snapshot room there (some snap) e made =
        let (stale, known) = status_of-stale cfg now snap in
        rw (sym made, known, stale)
          (check_rooms-own cfg tlm now room.device_id snap e cfg.rooms m i room there
            (text_eq_refl room.device_id))
