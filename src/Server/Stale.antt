-- ===== src/Server/Stale.antt =====
-- checkStale of backend/internal/server/notifications.go: one tick of the checks for silent displays.
pub mod Shown
use re_terminal_eink_signage.Base.{ℕ, ◌-◌, Option, none, some, List, [], ◌∷◌, ◌++◌, ltb}
use re_terminal_eink_signage.Config.Types.{Config, Room}
use re_terminal_eink_signage.Notify.{Message, Manager, evaluate_stale}
use re_terminal_eink_signage.Status.{stale_threshold}
use re_terminal_eink_signage.Telemetry.{Store, Snapshot, snapshot}

abbrev pub sent : Option Message → List Message
sent none = []
sent (some msg) = msg ∷ []

-- The body of the loop: a display that has not reported yet is passed over.
unfoldable pub check_room : Config → ℕ → Room → Option Snapshot → Manager → Option Message × Manager
check_room cfg now room none m = (none, m)
check_room cfg now room (some snap) m =
    let silent = now - snap.last_seen in
    evaluate_stale room.device_id room.name (ltb (stale_threshold cfg snap) silent) silent now m

unfoldable pub check_rooms : Config → Store → ℕ → List Room → Manager → List Message × Manager
unfolding check_room
check_rooms cfg tlm now [] m = ([], m)
check_rooms cfg tlm now (room ∷ rooms) m =
    let one = check_room cfg now room (snapshot room.device_id tlm) m in
    let rest = check_rooms cfg tlm now rooms one.1 in (sent one.0 ++ rest.0, rest.1)

abbrev pub check_stale : Config → Store → ℕ → Manager → List Message × Manager
check_stale cfg tlm now m = check_rooms cfg tlm now cfg.rooms m
