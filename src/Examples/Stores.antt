-- ===== src/Examples/Stores.antt =====
-- The frame cache, the poller and the telemetry queue at one device.
use re_terminal_eink_signage.Base.{
  ℕ, ◌+◌, ◌*◌, ◌≡◌, refl, inl, true, false, Option, none, some, [], ◌∷◌, List, length, Text, text,
  text_eq, lookup,
}
use re_terminal_eink_signage.Base.Int.{pos}
use re_terminal_eink_signage.Calendar.{Schedule, second}
use re_terminal_eink_signage.Cache as Cache
use re_terminal_eink_signage.Cache.{should_force_full_refresh}
use re_terminal_eink_signage.Cache.Forced as Forced
use re_terminal_eink_signage.Cache.Forced.{forced-once}
use re_terminal_eink_signage.Config.Types.{Room}
use re_terminal_eink_signage.Config.Wake.{Zone, hour}
use re_terminal_eink_signage.Poller.{refresh_room, entry_by_name, render_entry}
use re_terminal_eink_signage.Render.PackBits.{pack_bits}
use re_terminal_eink_signage.Poller.Refresh.{shows, refresh_each, refresh_room-each, forced_again}
use re_terminal_eink_signage.Render.Spectra6.{Paletted, pack}
use re_terminal_eink_signage.Render.Payload.{encode}
use re_terminal_eink_signage.Telemetry as Telemetry
use re_terminal_eink_signage.Telemetry.{Report, zero_report}
use re_terminal_eink_signage.Telemetry.Accounting as Accounting
use re_terminal_eink_signage.Telemetry.Accounting.{run-accounts, reports, stored, refused, unpruned}

abbrev utc : Zone
utc = record { wall = λ t. t; instant = λ w. w }

abbrev device : Text
device = text "rt-1"

abbrev three : ℕ
three = 3 * hour + 5 * second

forced_at_three : (should_force_full_refresh device three (pos 3) utc []).0 ≡ true
unfolding should_force_full_refresh lookup
forced_at_three = refl

abbrev quiet_hour : List Forced.Op
quiet_hour = Forced.fails device (text "timeout") ∷ Forced.asks device (three + second) ∷ []

quiet_hour-OnDay : Forced.OnDay utc 0 quiet_hour
unfolding Forced.OnDay
quiet_hour-OnDay = (refl, refl)

forced-once_example :
    should_force_full_refresh device
      (three + 9 * second)
      (pos 3)
      utc
      (Forced.run utc (pos 3) quiet_hour (should_force_full_refresh device three (pos 3) utc []).1)
    ≡ (
      false,
      Forced.run utc (pos 3) quiet_hour (should_force_full_refresh device three (pos 3) utc []).1,
    )
forced-once_example =
    forced-once utc (pos 3) device three (three + 9 * second) quiet_hour [] forced_at_three
      quiet_hour-OnDay refl

abbrev room : Room
room = record {
  device_id = device;
  name = text "Oak";
  room = text "oak@example.com";
  token_sha256 = [];
  location = [];
  label = [];
  wake_mode = none;
  flat_interval_seconds = none;
}

abbrev schedule : Schedule
schedule = record { room_name = text "Oak"; events = []; fetched_at = three }

abbrev blank : Schedule → ℕ → Paletted
blank s now = record { pix = 1 ∷ 1 ∷ []; stride = 2; width = 2; height = 1 }

abbrev no_png : Paletted → Option (List ℕ)
no_png image = none

abbrev empty_stores : Cache.Store × Telemetry.Store
empty_stores = (
  [],
  record {
    m = [];
    has_sink = false;
    q = [];
    queue_size = 0;
    sink_errs = 0;
    dropped = 0;
    closed = false;
  },
)

refresh_room-each_example :
    refresh_room blank no_png 2 1 (room ∷ room ∷ []) (inl schedule) three empty_stores
    ≡ refresh_each blank no_png 2 1 schedule three (room ∷ room ∷ []) empty_stores
refresh_room-each_example =
    refresh_room-each blank no_png 2 1 schedule three (room ∷ room ∷ []) empty_stores

refreshed :
    (out : Cache.Store × Telemetry.Store) × (refresh_room blank no_png 2 1
        (room ∷ [])
        (inl schedule)
        three
        empty_stores
      ≡ some out)
unfolding refresh_room lookup pack encode entry_by_name render_entry pack_bits
refreshed = (_, refl)

forced_again_example :
    (should_force_full_refresh device (three + 60 * second) (pos 3) utc refreshed.0.0).0 ≡ true
unfolding refreshed shows text_eq
forced_again_example =
    forced_again blank no_png 2 1 schedule three (room ∷ []) empty_stores refreshed.0 device utc
      (three + 60 * second) (pos 3) refreshed.1 shown refl
  where
    shown : shows device (room ∷ []) ≡ true
    shown = refl

abbrev report : Report
report = record zero_report { rendered = true; battery_pct = pos 80 }

abbrev small_queue : Telemetry.Store
small_queue = record {
  m = [];
  has_sink = true;
  q = [];
  queue_size = 1;
  sink_errs = 0;
  dropped = 0;
  closed = false;
}

-- Two reports for a queue of one, a round of the writer, a shutdown and a late report.
abbrev busy : List Accounting.Op
busy =
    Accounting.ingests device report three
    ∷ Accounting.ingests device report (three + second)
    ∷ Accounting.drains true
    ∷ Accounting.drains false
    ∷ Accounting.closes
    ∷ Accounting.ingests device report (three + 2 * second)
    ∷ []

run-accounts_example :
    (reports busy + 0
      ≡ stored busy small_queue
        + refused busy small_queue
        + (length (Accounting.run busy small_queue).q + (Accounting.run busy small_queue).dropped))
    × ((Accounting.run busy small_queue).sink_errs ≡ 0 + refused busy small_queue + unpruned busy)
run-accounts_example = run-accounts busy small_queue refl
