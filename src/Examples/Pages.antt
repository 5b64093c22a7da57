-- ===== src/Examples/Pages.antt =====
-- Theorems about the guard of the pages, for a manager who logged in.
use re_terminal_eink_signage.Base.{
  ◌≡◌, refl, Bool, true, false, some, [], ◌∷◌, Text, text, text_eq, lookup, equal_fold, lower, fold,
}
use re_terminal_eink_signage.Config.Types.{two_factor_required, user_by_username, find_user}
use re_terminal_eink_signage.Auth.{role_manager, role_rank, satisfies}
use re_terminal_eink_signage.Auth.Sessions.{Session, SessionFlags, Store, missing, check}
use re_terminal_eink_signage.Server.Gate.{
  manager_ui, needs_2fa_enrollment, serves, redirects, admit, require_role,
}
use re_terminal_eink_signage.Server.Gate.Confinement.{
  IsComplete, manager_door, require_role-IsComplete, admit-settles, admit-loops,
}
use re_terminal_eink_signage.Examples.Fleet.{fleet, relaxed}

abbrev key : Text → Text
key token = token

abbrev flags : Bool → SessionFlags
flags pending = record { must_change_password = false; pending_2fa = pending }

abbrev session : Bool → Session
session pending = record { role = role_manager; username = text "bob"; flags = flags pending }

abbrev store : Store
store = record {
  m =
      (
        text "t1",
        record { role = role_manager; username = text "bob"; flags = flags false; expires = 100 },
      )
      ∷ [];
  ttl = 1000;
  path = false;
  file = missing;
}

require_role-IsComplete_example :
    (token : Text) × (sess : Session) × (some (text "t1") ≡ some token)
    × ((check key token 50 true store).0 ≡ some sess)
    × IsComplete relaxed manager_ui sess
unfolding require_role admit check lookup text_eq satisfies role_rank needs_2fa_enrollment
    two_factor_required
require_role-IsComplete_example =
    require_role-IsComplete key relaxed manager_ui (some (text "t1")) (text "/manager") 50 true
      store (refl, refl, refl, refl) refl

admit-settles_example : admit fleet manager_ui (session false) (text "/manager/2fa/setup") ≡ serves
unfolding admit text_eq satisfies role_rank needs_2fa_enrollment two_factor_required
    user_by_username find_user equal_fold lower fold
admit-settles_example =
    admit-settles fleet manager_ui (session false) (text "/manager") (text "/manager/2fa/setup")
      refl refl refl

admit-loops_example :
    (admit fleet manager_ui (session true) (text "/manager/verify-2fa")
      ≡ redirects (text "/manager/2fa/setup"))
    × (admit fleet manager_ui (session true) (text "/manager/2fa/setup")
        ≡ redirects (text "/manager/verify-2fa"))
unfolding text_eq satisfies role_rank needs_2fa_enrollment two_factor_required user_by_username
    find_user equal_fold lower fold
admit-loops_example = admit-loops manager_door fleet (session true) refl refl refl refl
