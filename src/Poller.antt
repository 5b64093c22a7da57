-- ===== src/Poller.antt =====
-- backend/internal/poller/poller.go: one refresh of the displays that show one calendar address.
-- The calendar provider, the renderer's layout and the PNG encoder are parameters; the goroutines of
-- different addresses work on different devices, and each refresh is a step on both stores.
pub mod Refresh
use mathlib.Core.Option
use re_terminal_eink_signage.Base.{
  ◌>>=◌, ◌>>◌, ℕ, zero, suc, ◌+◌, ◌/◌, ◌%◌, ◌⊎◌, inl, inr, true, Option, none, some, List, [], ◌∷◌,
  ◌++◌, map, ltb, if◌then◌else◌, length, Text, lower, lookup, insert,
}
use re_terminal_eink_signage.Calendar.{Schedule, current, next, room_status}
use re_terminal_eink_signage.Cache as Cache
use re_terminal_eink_signage.Cache.{Entry, set_error}
use re_terminal_eink_signage.Config.Types.{Room}
use re_terminal_eink_signage.Render.Payload.{Payload, encode}
use re_terminal_eink_signage.Render.Spectra6.{Paletted, pack}
use re_terminal_eink_signage.Telemetry as Telemetry
use re_terminal_eink_signage.Telemetry.{set_room_status}

-- The loop of `groupByRoomAddress`: `index` maps a lowered address to its group's place.
append_at : {A : Type 0} → ℕ → A → List (List A) → List (List A)
append_at i x [] = []
append_at zero x (g ∷ gs) = (g ++ x ∷ []) ∷ gs
append_at (suc i) x (g ∷ gs) = g ∷ append_at i x gs

group_loop : List Room → List (Text × ℕ) → List (List Room) → List (List Room)
group_loop [] index groups = groups
group_loop (r ∷ rooms) index groups = elim (lookup (lower r.room) index) [
  | some i ↦ group_loop rooms index (append_at i r groups)
  | none ↦ group_loop rooms (insert (lower r.room) (length groups) index) (groups ++ (r ∷ []) ∷ [])
]

unfoldable pub group_by_room_address : List Room → List (List Room)
unfolding group_loop append_at
group_by_room_address rooms = group_loop rooms [] []

-- `%08x`.
hex_digit : ℕ → ℕ
hex_digit n = if ltb n 10 then 48 + n else 87 + n

hex : ℕ → ℕ → Text
hex zero n = []
hex (suc digits) n = hex digits (n / 16) ++ hex_digit (n % 16) ∷ []

unfoldable pub etag_of : Payload → Text
unfolding hex hex_digit
etag_of payload = (34 ∷ hex 8 payload.crc32) ++ 34 ∷ []

module _ (compose : Schedule → ℕ → Paletted) (png : Paletted → Option (List ℕ))
    (width height : ℕ) where
  -- What is composed for a displayed name; `none` is a panic of `Pack`.
  unfoldable pub render_entry : Schedule → ℕ → Text → Option Entry
  unfolding etag_of
  render_entry sched now name =
      let pal = compose (record sched { room_name = name }) now in
      do
        packed ← pack pal
        payload ← encode packed width height 0 true
        some (record {
          payload = some payload;
          preview_png = png pal;
          etag = etag_of payload;
          rendered_at = now;
          err = none;
          cur = current sched now;
          next = next sched now;
          last_forced_refresh_day = none;
        })

  -- The entry of a display, from the memo if its name was composed before, and the memo after.
  unfoldable pub entry_by_name :
      Schedule → ℕ → Text → List (Text × Entry) → Option (Entry × List (Text × Entry))
  entry_by_name sched now name by_name = elim (lookup name by_name) [
    | some c ↦ some (c, by_name)
    | none ↦ Option.map (λ c. (c, insert name c by_name)) (render_entry sched now name)
  ]

  -- The loop over the group's displays.
  refresh_displays :
      List Room
      → Schedule
      → ℕ
      → List (Text × Entry)
      → Cache.Store × Telemetry.Store
      → Option (Cache.Store × Telemetry.Store)
  refresh_displays [] sched now by_name (store, tlm) = some (store, tlm)
  refresh_displays (room ∷ rooms) sched now by_name (store, tlm) = do
    (c, by_name') ← entry_by_name sched now room.name by_name
    refresh_displays rooms sched now by_name' (
      Cache.set room.device_id c store,
      set_room_status room.device_id (room_status (current sched now) (next sched now) now) tlm,
    )

  fail_displays : List Room → Text → Cache.Store → Cache.Store
  fail_displays [] err store = store
  fail_displays (room ∷ rooms) err store =
      fail_displays rooms err (set_error room.device_id err store)

  -- `refreshRoom`, given what `FetchSchedule` returned: a schedule, or an error's text.
  unfoldable pub refresh_room :
      List Room
      → Schedule ⊎ Text
      → ℕ
      → Cache.Store × Telemetry.Store
      → Option (Cache.Store × Telemetry.Store)
  unfolding refresh_displays fail_displays
  refresh_room group (inl sched) now stores = refresh_displays group sched now [] stores
  refresh_room group (inr err) now (store, tlm) = some (fail_displays group err store, tlm)
