-- ===== src/Server/Scope/Confined.antt =====
-- What the form of a manager can change.
use re_terminal_eink_signage.Base.{
  ℕ, ◌≡◌, refl, sym, ap, ◌∙◌, ◌⊎◌, inl, inr, Bool, true, false, not, Option, [], ◌∷◌, List, arith,
  Text, text, any, text_eq, text_eq_iff, text_eq→eq, Option-cases, Bool-cases,
}
use re_terminal_eink_signage.Config.Types.{Config, Room, find_room, room_by_device_id}
use re_terminal_eink_signage.Config.Checks.{ConfigError}
use re_terminal_eink_signage.Config.Edits.{update_first, validated-inr, with_room_wake_override}
use re_terminal_eink_signage.Server.Forms.{Form, form_get}
use re_terminal_eink_signage.Server.Site.{
  World, Moment, PersistError, Site, persist_first, refresh_derived, applied_by, apply_config, told,
  commit,
}
use re_terminal_eink_signage.Server.Scope.{
  session_account, room_visible, override_of_form, handle_manager_save_wake,
}
use re_terminal_eink_signage.Server.Scope.Serves.{session_account-alike}

-- A room with another wake mode and interval.
abbrev pub set_wake : Option Text → Option ℕ → Room → Room
set_wake mode flat r = record r { wake_mode = mode; flat_interval_seconds = flat }

find_room-update_first :
    (id d : Text) (mode : Option Text) (flat : Option ℕ) (rs : List Room)
    → text_eq id d ≡ false
    → find_room d (update_first (λ r. text_eq r.device_id id) (set_wake mode flat) rs)
      ≡ find_room d rs
unfolding find_room update_first
find_room-update_first id d mode flat [] h = refl
find_room-update_first id d mode flat (r ∷ rs) h = ground (
  arith,
  h,
  text_eq_iff r.device_id id,
  text_eq_iff r.device_id d,
  text_eq_iff id d,
  find_room-update_first id d mode flat rs h,
)

-- The configuration after a change is the old one or the edited one.
commit-cfg :
    (w : World) (m : Moment) (edited : ConfigError ⊎ Config) (refresh : Bool)
    (at failed_at done : Text) (s : Site)
    → ((commit w m edited refresh at failed_at done s).1.cfg ≡ s.cfg)
      ⊎ ((next : Config) × (edited ≡ inr next)
          × ((commit w m edited refresh at failed_at done s).1.cfg ≡ next))
unfolding commit applied_by apply_config refresh_derived
commit-cfg w m (inl e) refresh at failed_at done s = inl refl
commit-cfg w m (inr next) refresh at failed_at done s =
    by_cases (persist_first w m next s.saved) refresh
  where
    by_cases :
        (p : (PersistError × Option Text) ⊎ Option Text) (refresh : Bool)
        → ((told failed_at done (applied_by w m p next refresh s)).1.cfg ≡ s.cfg)
          ⊎ ((n : Config) × (◌≡◌ {A = ConfigError ⊎ Config} (inr next) (inr n))
              × ((told failed_at done (applied_by w m p next refresh s)).1.cfg ≡ n))
    by_cases (inl (e, left)) refresh = inl refl
    by_cases (inr out) true = inr (next, refl, refl)
    by_cases (inr out) false = inr (next, refl, refl)

module _ (w : World) (m : Moment) (cookie : Option Text) (f : Form) (s : Site) where
  abbrev named : Text
  named = form_get (text "device_id") f

  commit-find :
      (d : Text) (mode : Option Text) (flat : Option ℕ) (at failed_at done : Text) (t : Site)
      → t.cfg ≡ s.cfg
      → text_eq named d ≡ false
      → room_by_device_id
          (commit w m
            (with_room_wake_override w.load_location w.url_parse named mode flat s.cfg)
            false
            at
            failed_at
            done
            t).1.cfg
          d
        ≡ room_by_device_id s.cfg d
  unfolding room_by_device_id with_room_wake_override
  commit-find d mode flat at failed_at done t same other =
      elim (commit-cfg w m
        (with_room_wake_override w.load_location w.url_parse named mode flat s.cfg) false at
        failed_at done t) [
          | inl kept ↦ ap (λ c. find_room d c.rooms) (kept ∙ same)
          | inr (next, edited, live) ↦
              elim (Bool-cases (any (λ r. text_eq r.device_id named) s.cfg.rooms)) [
                | inl there ↦
                    let valid = rw (with_room_wake_override, there) at edited in
                    ap (λ c. find_room d c.rooms)
                      (live ∙ sym (validated-inr w.load_location w.url_parse _ next valid).0)
                    ∙ find_room-update_first named d mode flat s.cfg.rooms other
                | inr gone ↦ let refused = rw (with_room_wake_override, gone) at edited in absurd cc
              ]
        ]

  -- A form of a manager leaves every room as it was that its session may not see: a display of
  -- another location for an account that is limited to some, and every display if there is no such
  -- session or, unless it is an administrator's, its account is gone. It also leaves every room but
  -- the one that it names.
  pub save_wake-IsConfined :
      (d : Text)
      → (room_visible w (session_account w m cookie s).0 s.cfg d ≡ false)
        ⊎ (text_eq (form_get (text "device_id") f) d ≡ false)
      → room_by_device_id (handle_manager_save_wake w m cookie f s).1.cfg d
        ≡ room_by_device_id s.cfg d
  unfolding handle_manager_save_wake
  save_wake-IsConfined d hidden =
      let account = session_account w m cookie s in
      let same = (session_account-alike w m cookie s).0 in
      elim (Bool-cases (not (room_visible w account.0 s.cfg named))) [
        | inl e ↦ rw (handle_manager_save_wake, e) (ap (λ c. room_by_device_id c d) same)
        | inr e ↦ elim (Option-cases (override_of_form w f s.cfg)) [
          | inl g ↦ rw (handle_manager_save_wake, e, g) (ap (λ c. room_by_device_id c d) same)
          | inr ((mode, flat), g) ↦
              rw (handle_manager_save_wake, e, g)
                (commit-find d mode flat _ _ _ account.1 same (other hidden e))
        ]
      ]
    where
      other :
          (room_visible w (session_account w m cookie s).0 s.cfg d ≡ false)
            ⊎ (text_eq named d ≡ false)
          → not (room_visible w (session_account w m cookie s).0 s.cfg named) ≡ false
          → text_eq named d ≡ false
      other (inr e) v = e
      other (inl unseen) v = elim (Bool-cases (text_eq named d)) [
        | inr e ↦ e
        | inl e ↦
            let seen =
              ap (room_visible w (session_account w m cookie s).0 s.cfg) (text_eq→eq named d e) in
            let unseen' = ap not (seen ∙ unseen) in absurd cc
      ]
