-- ===== src/Examples/Edits.antt =====
-- Single changes of the fleet on the server of Sites, and two at once.
use re_terminal_eink_signage.Base.{
  false, ℕ, ◌≡◌, refl, inr, true, some, [], ◌∷◌, get_elem?, text, text_eq, lower, fold, equal_fold,
  lookup,
}
use re_terminal_eink_signage.Config.Types.{Config, find_user, user_by_username, room_by_device_id}
use re_terminal_eink_signage.Auth.Credentials.{directory_of}
use re_terminal_eink_signage.Config.Edits.{
  with_wake, validated-none, upsert, with_user, without_user,
}
use re_terminal_eink_signage.Server.Forms.{Form, form_all, form_get, trimmed}
use re_terminal_eink_signage.Server.Site.{
  redirects, refresh_derived, persist_by, persist_first, applied_by, apply_config, commit,
}
use re_terminal_eink_signage.Server.Admin.Accounts.{
  password_of_form, user_of_form, handle_admin_save_user,
}
use re_terminal_eink_signage.Server.Admin.Accounts.Renamed.{rename_keeps_old}
use re_terminal_eink_signage.Server.Admin.Places.{push_subscriptions}
use re_terminal_eink_signage.Server.Admin.Places.Removed.{removed_account-notified}
use re_terminal_eink_signage.Server.Scope.{handle_manager_save_wake}
use re_terminal_eink_signage.Server.Scope.Confined.{save_wake-IsConfined}
use re_terminal_eink_signage.Server.Site.Overlap.{overlap_restores_account}
use re_terminal_eink_signage.Examples.Fleet.{
  fleet, ada, bob, eve, browser, known_zone, parsed, variants_valid,
}
use re_terminal_eink_signage.Examples.Sites.{world, moment, site}

-- Ada saves another interval for the door.
abbrev wake_form : Form
wake_form =
    (text "device_id", text "e1001" ∷ [])
    ∷ (text "wake_mode", text "flat" ∷ [])
    ∷ (text "interval_seconds", text "300" ∷ [])
    ∷ []

save_wake-IsConfined_example :
    room_by_device_id
      (handle_manager_save_wake world moment (some (text "t1")) wake_form site).1.cfg
      (text "e1002")
    ≡ room_by_device_id fleet (text "e1002")
unfolding form_get form_all lookup text_eq
save_wake-IsConfined_example =
    save_wake-IsConfined world moment (some (text "t1")) wake_form site (text "e1002") (inr refl)

abbrev subscribed_fleet : Config
subscribed_fleet = record fleet { push_subscriptions = browser ∷ [] }

removed_bob :
    without_user known_zone parsed (text "Bob") subscribed_fleet
    ≡ inr (record fleet { users = ada ∷ []; push_subscriptions = browser ∷ [] })
unfolding without_user equal_fold text_eq lower fold
removed_bob = validated-none known_zone parsed _ variants_valid.6

removed_account-notified_example :
    (j : ℕ) × (get_elem?
        (push_subscriptions
          (text "hq")
          (record fleet { users = ada ∷ []; push_subscriptions = browser ∷ [] }))
        j
      ≡ some browser)
unfolding equal_fold text_eq lower fold
removed_account-notified_example =
    removed_account-notified known_zone parsed subscribed_fleet _ (text "Bob") (text "hq") 0 browser
      removed_bob refl refl refl

-- Ada becomes Eve, a manager.
abbrev eve_form : Form
eve_form =
    (text "original_username", text "ada" ∷ [])
    ∷ (text "username", text "eve" ∷ [])
    ∷ (text "role", text "manager" ∷ [])
    ∷ []

with_eve :
    with_user known_zone parsed (user_of_form world eve_form fleet) fleet
    ≡ inr (record fleet { users = ada ∷ bob ∷ eve ∷ [] })
unfolding with_user upsert user_of_form password_of_form trimmed form_get form_all lookup text_eq
    user_by_username find_user equal_fold lower fold
with_eve = validated-none known_zone parsed _ variants_valid.5

eve-saved :
    (handle_admin_save_user world moment eve_form site).0 ≡ redirects (text "/admin?saved=access")
unfolding handle_admin_save_user commit apply_config applied_by persist_first persist_by
    refresh_derived form_get form_all lookup text_eq
eve-saved = rw (handle_admin_save_user, with_eve) refl

rename_keeps_old_example :
    (user_by_username (handle_admin_save_user world moment eve_form site).1.cfg (text "ada")
      ≡ some ada)
    × (user_by_username (handle_admin_save_user world moment eve_form site).1.cfg (text "eve")
        ≡ some eve)
unfolding user_of_form password_of_form trimmed form_get form_all lookup text_eq user_by_username
    find_user equal_fold lower fold
rename_keeps_old_example =
    rename_keeps_old world moment eve_form site ada (record fleet { users = ada ∷ bob ∷ eve ∷ [] })
      (text "/admin?saved=access") with_eve refl refl refl eve-saved

less_bob :
    without_user known_zone parsed (text "Bob") fleet ≡ inr (record fleet { users = ada ∷ [] })
unfolding without_user equal_fold text_eq lower fold
less_bob = validated-none known_zone parsed _ variants_valid.2

same_wake : with_wake known_zone parsed fleet.wake fleet ≡ inr fleet
unfolding with_wake
same_wake = validated-none known_zone parsed _ variants_valid.0

overlap_restores_account_example :
    ((apply_config world moment fleet false
        (apply_config world moment (record fleet { users = ada ∷ [] }) true site).1).1.cfg.users
      ≡ ada ∷ bob ∷ [])
    × ((apply_config world moment fleet false
          (apply_config world moment (record fleet { users = ada ∷ [] }) true site).1).1.directory
        ≡ directory_of (ada ∷ []) [])
unfolding apply_config persist_first persist_by applied_by refresh_derived
overlap_restores_account_example =
    overlap_restores_account world moment moment site (text "Bob") fleet.wake
      (record fleet { users = ada ∷ [] }) fleet less_bob same_wake refl refl
