-- ===== src/Server/Login/SecondFactor.antt =====
-- The second factor of an account over a history of logins, logouts, visits and codes.
use re_terminal_eink_signage.Base.{
  ℕ, ◌≡◌, ap, sym, ◌∙◌, inl, inr, Bool, true, false, not, ◌||◌, Option, none, some, List, [], ◌∷◌,
  arith, map, get_elem?, Bool-cases, Option-cases, Text, text_eq→eq, is_empty, lower, fold,
  lower-fold, fold-lower, equal_fold,
}
use re_terminal_eink_signage.Config.Types.{Config, User, user_by_username}
use re_terminal_eink_signage.Config.Checks.{Distinct}
use re_terminal_eink_signage.Config.Edits.Logins.{
  AsciiNames, AsciiNames-get, find_user-get, same_account,
}
use re_terminal_eink_signage.Auth.{satisfies}
use re_terminal_eink_signage.Auth.Credentials.{VerifyResult, directory_of, verify, verify-account}
use re_terminal_eink_signage.Auth.Sessions.{
  Session, SessionEntry, SessionFile, Store, new_session_store, check,
}
use re_terminal_eink_signage.Server.Gate.{RoleUi}
use re_terminal_eink_signage.Server.Login.{
  no_flags, door_session, handle_login_submit, handle_logout, handle_totp_verify_submit,
}
use re_terminal_eink_signage.Server.Login.Kept.{
  Kept, create-Kept, revoke-Kept, door_session-Kept, reissue-Kept, check-P,
}

-- A form of the login page or of the code page, a logout, or the check that a guarded page makes.
pub data Op : Type 0 where
  logs_in : RoleUi → Text → Text → Text → Text → ℕ → Bool → Op
  logs_out : RoleUi → Option Text → ℕ → Bool → Op
  enters_code : RoleUi → Option Text → Text → Text → ℕ → Bool → Op
  visits : RoleUi → Option Text → ℕ → Bool → Op

module _ (key : Text → Text) (sha256 : Text → List ℕ) (verify_totp : Text → Text → ℕ → Bool)
    (cfg : Config) where
  abbrev pub step : Op → Store → Store
  step (logs_in ui username password next token now w) s =
      (handle_login_submit key sha256 (directory_of cfg.users []) ui username password next token
        now w s).1
  step (logs_out ui cookie now w) s = (handle_logout key ui cookie now w s).1
  step (enters_code ui cookie code token now w) s =
      (handle_totp_verify_submit key verify_totp cfg ui cookie code token now w s).1
  step (visits ui cookie now w) s = (door_session key ui cookie now w s).1

  unfoldable pub run : List Op → Store → Store
  run [] s = s
  run (o ∷ os) s = run os (step o s)

  -- No code that was entered is one of the secret.
  unfoldable pub Uncoded : Text → List Op → Type 0
  Uncoded secret [] = Unit
  Uncoded secret (enters_code ui cookie code token now w ∷ os) =
      (verify_totp secret code now ≡ false) × Uncoded secret os
  Uncoded secret (o ∷ os) = Uncoded secret os

  module _ (i : ℕ) (u : User) (distinct : Distinct (map (λ v. lower v.username) cfg.users))
      (at : get_elem? cfg.users i ≡ some u) (enrolled : is_empty u.totp_secret ≡ false)
      (names : AsciiNames cfg.users) where
    -- A session of the account still waits for its second factor.
    abbrev Waits : SessionEntry → Type 0
    Waits e = fold e.username ≡ fold u.username → e.flags.pending_2fa ≡ true

    login-Waits :
        (ui : RoleUi) (username password next token : Text) (now : ℕ) (w : Bool) (s : Store)
        → Kept key Waits s
        → Kept key Waits (step (logs_in ui username password next token now w) s)
    unfolding handle_login_submit
    login-Waits ui username password next token now w s k =
        elim (Option-cases (verify sha256 (directory_of cfg.users []) username password)) [
          | inl e ↦ rw (step, handle_login_submit, e) k
          | inr (r, e) ↦ elim (Bool-cases (not (satisfies r.role ui.role))) [
            | inl low ↦ rw (step, handle_login_submit, e, low) k
            | inr enough ↦
                let (j, v, at_j, named, _, is) =
                  verify-account sha256 cfg.users username password r e in
                rw (step, handle_login_submit, e, enough)
                  (create-Kept key Waits token r.role username _ now w s
                    (λ same.
                      ap (λ (z : VerifyResult). z.totp_enabled) is
                      ∙ ap (λ (z : User). not (is_empty z.totp_secret))
                          (same_account cfg.users i j u v distinct at at_j (
                            lower-fold username v.username u.username
                              (AsciiNames-get cfg.users j v names at_j)
                              (AsciiNames-get cfg.users i u names at) (sym named) same))
                      ∙ ap not enrolled)
                    k)
          ]
        ]

    code-Waits :
        (ui : RoleUi) (cookie : Option Text) (code token : Text) (now : ℕ) (w : Bool) (s : Store)
        → verify_totp u.totp_secret code now ≡ false
        → Kept key Waits s
        → Kept key Waits (step (enters_code ui cookie code token now w) s)
    unfolding handle_totp_verify_submit user_by_username
    code-Waits ui cookie code token now w s wrong k =
        let kept = door_session-Kept key Waits ui cookie now w s k in
        elim (Option-cases (door_session key ui cookie now w s).0) [
          | inl e ↦ rw (step, handle_totp_verify_submit, e) kept
          | inr (sess, e) ↦ elim (Option-cases (user_by_username cfg sess.username)) [
            | inl f ↦ rw (step, handle_totp_verify_submit, e, f) kept
            | inr (v, f) ↦
                elim (Bool-cases
                  (is_empty v.totp_secret || not (verify_totp v.totp_secret code now))) [
                    | inl bad ↦ rw (step, handle_totp_verify_submit, e, f, bad) kept
                    | inr good ↦
                        let (j, at_j, named) = find_user-get sess.username cfg.users v f in
                        rw (step, handle_totp_verify_submit, e, f, good)
                          (reissue-Kept key Waits cookie token sess no_flags now w _
                            (λ expires same.
                              let v_u = same_account cfg.users i j u v distinct at at_j (
                                fold-lower v.username u.username
                                  (AsciiNames-get cfg.users j v names at_j)
                                  (AsciiNames-get cfg.users i u names at) (named ∙ same)) in
                              let fails =
                                ap (λ (z : User). verify_totp z.totp_secret code now) v_u in
                              ground (arith, good, fails, wrong))
                            kept)
                  ]
          ]
        ]

    run-Waits :
        (os : List Op) (s : Store)
        → Uncoded u.totp_secret os
        → Kept key Waits s
        → Kept key Waits (run os s)
    unfolding run Uncoded handle_logout
    run-Waits [] s n k = k
    run-Waits (logs_in ui username password next token now w ∷ os) s n k =
        run-Waits os _ n (login-Waits ui username password next token now w s k)
    run-Waits (logs_out ui none now w ∷ os) s n k = run-Waits os s n k
    run-Waits (logs_out ui (some token) now w ∷ os) s n k =
        run-Waits os _ n (revoke-Kept key Waits token now w s k)
    run-Waits (enters_code ui cookie code token now w ∷ os) s n k =
        run-Waits os _ n.1 (code-Waits ui cookie code token now w s n.0 k)
    run-Waits (visits ui cookie now w ∷ os) s n k =
        run-Waits os _ n (door_session-Kept key Waits ui cookie now w s k)

    -- In a configuration whose account names are in ASCII and differ in any case, and for an account
    -- with a second factor: from an empty session store, after any logins, logouts, visits and codes, none of the
    -- codes being right for its secret, every session of the account still waits for the factor.
    pub second_factor_needed :
        (os : List Op) (ttl : ℕ) (file : SessionFile) (token : Text) (now : ℕ) (w : Bool)
        (sess : Session)
        → Uncoded u.totp_secret os
        → (check key token now w (run os (new_session_store ttl file))).0 ≡ some sess
        → equal_fold sess.username u.username ≡ true
        → sess.flags.pending_2fa ≡ true
    unfolding new_session_store equal_fold
    second_factor_needed os ttl file token now w sess n h same =
        let (expires, waits) = check-P key Waits token now w _ sess (run-Waits os _ n tt) h in
        waits (text_eq→eq _ _ same)
