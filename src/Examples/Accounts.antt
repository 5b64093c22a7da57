-- ===== src/Examples/Accounts.antt =====
-- Sessions, reset links and the mail limit at a few requests.
use re_terminal_eink_signage.Base.{
  ◌+◌, ◌≤◌, ◌≡◌, refl, true, false, none, List, [], ◌∷◌, arith, Text, text, text_eq, equal_fold,
  lookup,
}
use re_terminal_eink_signage.Auth.Sessions.{
  SessionFlags, SessionEntry, missing, Store, new_session_store, persist, check, revoke_by_username,
}
use re_terminal_eink_signage.Auth.Sessions.Persistence as Persistence
use re_terminal_eink_signage.Auth.Sessions.Persistence.{persist-check}
use re_terminal_eink_signage.Auth.Sessions.Revocation.{check-revoke_by_username}
use re_terminal_eink_signage.Auth.Sessions.Unique.{Unique, kept}
use re_terminal_eink_signage.Auth.Tokens.{Reset, ResetStore, peek, take}
use re_terminal_eink_signage.Auth.Tokens.SingleUse as SingleUse
use re_terminal_eink_signage.Auth.Tokens.SingleUse.{take_once}
use re_terminal_eink_signage.Auth.Tokens.RateLimit.{Requests, Until, allowed, allowed_bound}

-- A stand-in for the hash.
abbrev key : Text → Text
key token = 35 ∷ token

abbrev flags : SessionFlags
flags = record { must_change_password = false; pending_2fa = false }

abbrev history : List Persistence.Op
history =
    Persistence.creates (text "t1") (text "admin") (text "ada") flags 10
    ∷ Persistence.creates (text "t2") (text "viewer") (text "bob") flags 20
    ∷ Persistence.revokes (text "t1") 30
    ∷ []

persist-check_example :
    (check key
      (text "t2")
      60
      true
      (persist 50 (
        new_session_store 1000
          (Persistence.run key history (persist 5 (new_session_store 1000 missing)).1).file)).1).0
    ≡ (check key
        (text "t2")
        60
        true
        (Persistence.run key history (persist 5 (new_session_store 1000 missing)).1)).0
persist-check_example = persist-check key history 1000 1000 5 50 60 (text "t2") refl (omega arith)

abbrev entry : SessionEntry
entry = record { role = text "viewer"; username = text "Bob"; flags = flags; expires = 1000 }

abbrev store : Store
store = record { m = (key (text "t2"), entry) ∷ []; ttl = 1000; path = false; file = missing }

store-Unique : Unique store.m
unfolding Unique lookup
store-Unique = (refl, refl)

check-revoke_by_username_example :
    (check key (text "t2") 60 true (revoke_by_username (text "bob") 50 true store)).0
    ≡ kept
        (λ session. equal_fold session.username (text "bob"))
        (check key (text "t2") 60 true store).0
check-revoke_by_username_example =
    check-revoke_by_username key (text "t2") 50 60 true true store store-Unique (omega arith)
      (text "bob")

abbrev link : Reset
link = record { username = text "bob"; password = []; expires = 100 }

abbrev links : ResetStore
links = (text "n1", link) ∷ []

-- Another link is issued, and the first one is tried again.
abbrev later_ops : List SingleUse.Op
later_ops = SingleUse.puts 60 (text "n2") link ∷ SingleUse.takes 61 (text "n1") ∷ []

later_ops-Unissued : SingleUse.Unissued (text "n1") later_ops
unfolding SingleUse.Unissued text_eq
later_ops-Unissued = (refl, refl)

take_once_example :
    (peek 70 (text "n1") (SingleUse.run later_ops (take 50 (text "n1") links).1) ≡ none)
    × ((take 70 (text "n1") (SingleUse.run later_ops (take 50 (text "n1") links).1)).0 ≡ none)
take_once_example = take_once (text "n1") 50 70 later_ops links later_ops-Unissued

abbrev mails : Requests
mails =
    (text "user:bob", 11)
    ∷ (text "user:ada", 12)
    ∷ (text "user:bob", 13)
    ∷ (text "user:bob", 14)
    ∷ []

mails-Until : Until 3 900 (10 + 900) (text "user:bob") mails
unfolding Until
mails-Until =
    ((λ h. omega arith), ((λ h. omega arith), ((λ h. omega arith), ((λ h. omega arith), refl))))

allowed_bound_example : allowed 3 900 (text "user:bob") ((text "user:bob", 10) ∷ mails) [] ≤ 3
unfolding lookup
allowed_bound_example = allowed_bound 3 900 (text "user:bob") 10 mails [] refl mails-Until
