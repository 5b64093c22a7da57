-- ===== src/Poller/Refresh.antt =====
-- What a refresh of poller.go leaves in the cache.
use mathlib.Core.Option
use re_terminal_eink_signage.Base.{
  ◌>>=◌, ℕ, ◌≡◌, refl, sym, ap, ◌∙◌, ◌⊎◌, inl, inr, Bool, true, false, ◌||◌, Option, none, some,
  List, [], ◌∷◌, arith, Option-cases, >>=-eq-some, some_injective, Text, text_eq, text_eq→eq,
  lookup, insert, lookup-insert,
}
use re_terminal_eink_signage.Base.Int.{ℤ}
use re_terminal_eink_signage.Calendar.{Schedule, current, next, room_status}
use re_terminal_eink_signage.Cache as Cache
use re_terminal_eink_signage.Cache.{Entry, should_force_full_refresh, same_hour}
use re_terminal_eink_signage.Cache.Forced.{mark, mark-insert, unfold_mark}
use re_terminal_eink_signage.Config.Types.{Room}
use re_terminal_eink_signage.Config.Wake.{Zone, hour_of}
use re_terminal_eink_signage.Poller.{render_entry, entry_by_name, refresh_displays, refresh_room}
use re_terminal_eink_signage.Render.Spectra6.{Paletted, pack}
use re_terminal_eink_signage.Render.Payload.{encode}
use re_terminal_eink_signage.Telemetry as Telemetry
use re_terminal_eink_signage.Telemetry.{set_room_status}

-- A device is among a group's displays.
unfoldable pub shows : Text → List Room → Bool
shows d [] = false
shows d (room ∷ rooms) = text_eq room.device_id d || shows d rooms

module _ (compose : Schedule → ℕ → Paletted) (png : Paletted → Option (List ℕ)) (width height : ℕ)
    (sched : Schedule) (now : ℕ) where
  -- A refresh without the memo: each display is composed on its own.
  unfoldable pub refresh_each :
      List Room → Cache.Store × Telemetry.Store → Option (Cache.Store × Telemetry.Store)
  refresh_each [] (store, tlm) = some (store, tlm)
  refresh_each (room ∷ rooms) (store, tlm) = do
    c ← render_entry compose png width height sched now room.name
    refresh_each rooms (
      Cache.set room.device_id c store,
      set_room_status room.device_id (room_status (current sched now) (next sched now) now) tlm,
    )

  -- A memo holds what composing gives.
  Memo : List (Text × Entry) → Type 0
  Memo by_name =
      (name : Text) (c : Entry)
      → lookup name by_name ≡ some c
      → render_entry compose png width height sched now name ≡ some c

  hit :
      (name : Text) (c : Entry) (by_name : List (Text × Entry))
      → lookup name by_name ≡ some c
      → entry_by_name compose png width height sched now name by_name ≡ some (c, by_name)
  unfolding entry_by_name
  hit name c by_name h = rw (h, entry_by_name) refl

  miss :
      (name : Text) (by_name : List (Text × Entry))
      → lookup name by_name ≡ none
      → entry_by_name compose png width height sched now name by_name
        ≡ Option.map
            (λ c. (c, insert name c by_name))
            (render_entry compose png width height sched now name)
  unfolding entry_by_name
  miss name by_name h = rw (h, entry_by_name) refl

  Memo-insert :
      (name : Text) (c : Entry) (by_name : List (Text × Entry))
      → Memo by_name
      → render_entry compose png width height sched now name ≡ some c
      → Memo (insert name c by_name)
  unfolding Memo
  Memo-insert name c by_name m h name' c' k = ground (
    arith,
    h,
    m name' c',
    text_eq→eq name name',
    lookup-insert name name' c by_name,
    k,
    λ (e : text_eq name name' ≡ true).
        ap (render_entry compose png width height sched now) (text_eq→eq name name' e),
  )

  refresh_displays-each :
      (rooms : List Room) (by_name : List (Text × Entry)) (stores : Cache.Store × Telemetry.Store)
      → Memo by_name
      → refresh_displays compose png width height rooms sched now by_name stores
        ≡ refresh_each rooms stores
  unfolding refresh_displays refresh_each Memo
  refresh_displays-each [] by_name stores h = refl
  refresh_displays-each (room ∷ rooms) by_name stores h =
      elim (Option-cases (lookup room.name by_name)) [
        | inl n ↦
            rw (miss room.name by_name n)
              (elim (Option-cases (render_entry compose png width height sched now room.name)) [
                | inl r ↦ rw r refl
                | inr (c, r) ↦
                    rw r (refresh_displays-each rooms _ _ (Memo-insert room.name c by_name h r))
              ])
        | inr (c, l) ↦
            rw (hit room.name c by_name l, h room.name c l)
              (refresh_displays-each rooms by_name _ h)
      ]

  -- The memo by displayed name only saves work: the refresh of a group whose schedule was fetched
  -- leaves what composing the image of each display on its own would leave.
  pub refresh_room-each :
      (group : List Room) (stores : Cache.Store × Telemetry.Store)
      → refresh_room compose png width height group (inl sched) now stores
        ≡ refresh_each group stores
  unfolding refresh_room Memo lookup
  refresh_room-each group stores =
      refresh_displays-each group [] stores (λ name c k. ground (arith, k))

  render_entry-day :
      (name : Text) (c : Entry)
      → render_entry compose png width height sched now name ≡ some c
      → c.last_forced_refresh_day ≡ none
  unfolding render_entry
  render_entry-day name c h =
      let packed = >>=-eq-some (pack (compose (record sched { room_name = name }) now)) _ h in
      let payload = >>=-eq-some (encode packed.0 width height 0 true) _ packed.2 in
      sym (ap (λ e. e.last_forced_refresh_day) (some_injective payload.2))

  refresh_each-mark :
      (d : Text) (rooms : List Room) (stores out : Cache.Store × Telemetry.Store)
      → refresh_each rooms stores ≡ some out
      → (shows d rooms ≡ true) ⊎ (mark d stores.0 ≡ none)
      → mark d out.0 ≡ none
  unfolding refresh_each shows
  refresh_each-mark d [] stores out h k = rw (← some_injective h) (ground (arith, k))
  refresh_each-mark d (room ∷ rooms) stores out h k =
      let c = >>=-eq-some (render_entry compose png width height sched now room.name) _ h in
      refresh_each-mark d rooms _ out c.2 (
        ground
          (arith, k, mark-insert d room.device_id c.0 stores.0, render_entry-day room.name c.0 c.1))

  -- A poll forgets the daily repaint: whatever the cache held, once a fetched schedule has been
  -- refreshed, the next request of a device of the group in the forced hour is forced to repaint,
  -- so also one that was forced already on that day.
  pub forced_again :
      (group : List Room) (stores out : Cache.Store × Telemetry.Store) (d : Text) (loc : Zone)
      (later : ℕ) (f : ℤ)
      → refresh_room compose png width height group (inl sched) now stores ≡ some out
      → shows d group ≡ true
      → same_hour (hour_of (loc.wall later)) f ≡ true
      → (should_force_full_refresh d later f loc out.0).0 ≡ true
  unfolding should_force_full_refresh
  forced_again group stores out d loc later f h k same =
      let none_left =
        refresh_each-mark d group stores out (sym (refresh_room-each group stores) ∙ h) (inl k) in
      ground (arith, unfold_mark d out.0, none_left, same)
