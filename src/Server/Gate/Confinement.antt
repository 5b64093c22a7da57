-- ===== src/Server/Gate/Confinement.antt =====
-- What the guard lets through, and where its redirects end.
use re_terminal_eink_signage.Base.{
  ℕ, ◌≡◌, refl, inl, inr, Bool, true, false, ◌&&◌, Option, none, some, arith, Text, text_eq,
  text_eq_refl, subst, Bool-cases, Option-cases,
}
use re_terminal_eink_signage.Config.Types.{Config}
use re_terminal_eink_signage.Auth.{satisfies}
use re_terminal_eink_signage.Auth.Sessions.{Session, Store, check}
use re_terminal_eink_signage.Server.Gate.{
  RoleUi, admin_ui, manager_ui, viewer_ui, needs_2fa_enrollment, serves, redirects, admit,
  require_role,
}

-- The page is none of those on which an account finishes its login.
abbrev pub IsOrdinary : RoleUi → Text → Type 0
IsOrdinary ui path =
    (text_eq path ui.change_password_path ≡ false)
    × (text_eq path ui.totp_verify_path ≡ false)
    × (text_eq path ui.totp_setup_path ≡ false)
    × (text_eq path ui.totp_enable_path ≡ false)

-- A session that needs nothing more: its role suffices, its password is its own, its second factor
-- was entered, and its account has one if that is required.
abbrev pub IsComplete : Config → RoleUi → Session → Type 0
IsComplete cfg ui sess =
    (satisfies sess.role ui.role ≡ true)
    × (sess.flags.must_change_password ≡ false)
    × (sess.flags.pending_2fa ≡ false)
    × (needs_2fa_enrollment cfg sess ≡ false)

admit-IsComplete :
    (cfg : Config) (ui : RoleUi) (sess : Session) (path : Text)
    → IsOrdinary ui path
    → admit cfg ui sess path ≡ serves
    → IsComplete cfg ui sess
unfolding admit
admit-IsComplete cfg ui sess path (a, b, c, d) h = (
  ground (arith, a, b, c, d, h),
  ground (arith, a, b, c, d, h),
  ground (arith, a, b, c, d, h),
  ground (arith, a, b, c, d, h),
)

-- An ordinary page is shown only to the holder of a token that the session store answers with a
-- session that needs nothing more.
pub require_role-IsComplete :
    (key : Text → Text) (cfg : Config) (ui : RoleUi) (cookie : Option Text) (path : Text) (now : ℕ)
    (written : Bool) (s : Store)
    → IsOrdinary ui path
    → (require_role key cfg ui cookie path now written s).0 ≡ serves
    → (token : Text) × (sess : Session) × (cookie ≡ some token)
      × ((check key token now written s).0 ≡ some sess)
      × IsComplete cfg ui sess
unfolding require_role
require_role-IsComplete key cfg ui none path now written s o h = absurd cc
require_role-IsComplete key cfg ui (some token) path now written s o h =
    elim (Option-cases (check key token now written s).0) [
      | inl e ↦ let sent = rw (e, require_role) at h in absurd cc
      | inr (sess, e) ↦
          (token, sess, refl, e, admit-IsComplete cfg ui sess path o (rw (e, require_role) at h))
    ]

redirects_injective : (a b : Text) → redirects a ≡ redirects b → a ≡ b
redirects_injective a b h = cc

-- Redirects end: a page that a session of a sufficient role is sent to is shown to it, unless the
-- session waits for a second factor that its account does not have.
pub admit-settles :
    (cfg : Config) (ui : RoleUi) (sess : Session) (path to : Text)
    → satisfies sess.role ui.role ≡ true
    → (sess.flags.pending_2fa && needs_2fa_enrollment cfg sess) ≡ false
    → admit cfg ui sess path ≡ redirects to
    → admit cfg ui sess to ≡ serves
unfolding admit
admit-settles cfg ui sess path to role enrolled h =
    elim (Bool-cases sess.flags.must_change_password) [
      | inl must ↦
          subst (λ p. admit cfg ui sess p ≡ serves)
            (redirects_injective ui.change_password_path to (ground (arith, role, must, h)))
            (ground (arith, role, must, text_eq_refl ui.change_password_path))
      | inr must ↦ elim (Bool-cases sess.flags.pending_2fa) [
        | inl pending ↦
            subst (λ p. admit cfg ui sess p ≡ serves)
              (redirects_injective ui.totp_verify_path to
                (ground (arith, role, must, pending, enrolled, h)))
              (ground (arith, role, must, pending, enrolled, text_eq_refl ui.totp_verify_path))
        | inr pending ↦
            subst (λ p. admit cfg ui sess p ≡ serves)
              (redirects_injective ui.totp_setup_path to (ground (arith, role, must, pending, h)))
              (ground (arith, role, must, pending, text_eq_refl ui.totp_setup_path))
      ]
    ]

pub data Door : Type 0 where
  admin_door : Door
  manager_door : Door
  viewer_door : Door

abbrev pub ui_of : Door → RoleUi
ui_of admin_door = admin_ui
ui_of manager_door = manager_ui
ui_of viewer_door = viewer_ui

-- A session that waits for a second factor that its account does not have, and that no longer has to
-- change its password, is sent from the page that asks for the code to the page that sets one up, and
-- from there back.
pub admit-loops :
    (door : Door) (cfg : Config) (sess : Session)
    → satisfies sess.role (ui_of door).role ≡ true
    → sess.flags.must_change_password ≡ false
    → sess.flags.pending_2fa ≡ true
    → needs_2fa_enrollment cfg sess ≡ true
    → (admit cfg (ui_of door) sess (ui_of door).totp_verify_path
        ≡ redirects (ui_of door).totp_setup_path)
      × (admit cfg (ui_of door) sess (ui_of door).totp_setup_path
          ≡ redirects (ui_of door).totp_verify_path)
unfolding admit text_eq
admit-loops admin_door cfg sess role must pending needs =
    (ground (arith, role, must, pending, needs), ground (arith, role, must, pending, needs))
admit-loops manager_door cfg sess role must pending needs =
    (ground (arith, role, must, pending, needs), ground (arith, role, must, pending, needs))
admit-loops viewer_door cfg sess role must pending needs =
    (ground (arith, role, must, pending, needs), ground (arith, role, must, pending, needs))
