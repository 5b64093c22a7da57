-- ===== src/Cache.antt =====
-- backend/internal/cache/cache.go: the latest rendered payload of each device, and the mark of its
-- once-daily forced repaint. The mutex makes each operation one step on the map.
pub mod Forced
use re_terminal_eink_signage.Base.{
  ℕ, ◌/◌, Bool, true, false, not, Option, none, some, List, [], ◌==◌, if◌then◌else◌, Text, lookup,
  insert,
}
use re_terminal_eink_signage.Base.Int.{ℤ, pos, negsuc}
use re_terminal_eink_signage.Calendar.{Event}
use re_terminal_eink_signage.Config.Wake.{Zone, hour_of, day}
use re_terminal_eink_signage.Render.Payload.{Payload}

-- `Entry`; the zero `Payload` and a nil preview are `none`, an error is its text, and a local day
-- "YYYY-MM-DD" is its number, with `none` for "".
pub record Entry : Type 0 where
  pub payload : Option Payload
  pub preview_png : Option (List ℕ)
  pub etag : Text
  pub rendered_at : ℕ
  pub err : Option Text
  pub cur : Option Event
  pub next : Option Event
  pub last_forced_refresh_day : Option ℕ

abbrev pub zero_entry : Entry
zero_entry = record {
  payload = none;
  preview_png = none;
  etag = [];
  rendered_at = 0;
  err = none;
  cur = none;
  next = none;
  last_forced_refresh_day = none;
}

-- `Store`.
abbrev pub Store : Type 0
Store = List (Text × Entry)

abbrev pub get : Text → Store → Option Entry
get = lookup

abbrev pub set : Text → Entry → Store → Store
set = insert

abbrev pub entry_of : Text → Store → Entry
entry_of device_id s = elim (lookup device_id s) [ none ↦ zero_entry | some e ↦ e ]

unfoldable pub set_error : Text → Text → Store → Store
set_error device_id err s = insert device_id (record (entry_of device_id s) { err = some err }) s

abbrev pub same_hour : ℕ → ℤ → Bool
same_hour h (pos n) = h == n
same_hour h (negsuc n) = false

abbrev pub same_day : Option ℕ → ℕ → Bool
same_day none today = false
same_day (some d) today = d == today

unfoldable pub should_force_full_refresh : Text → ℕ → ℤ → Zone → Store → Bool × Store
should_force_full_refresh device_id now forced_hour loc s =
    let local = loc.wall now in
    let today = local / day in
    let e = entry_of device_id s in
    if not (same_hour (hour_of local) forced_hour)
    then (false, s)
    else (if same_day e.last_forced_refresh_day today
        then (false, s)
        else (true, insert device_id (record e { last_forced_refresh_day = some today }) s))
