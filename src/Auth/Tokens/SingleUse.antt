-- ===== src/Auth/Tokens/SingleUse.antt =====
-- The reset links and temporary passwords of forgot_password.go and password_reset.go, over the requests
-- that use them.
use re_terminal_eink_signage.Base.{
  ℕ, zero, ◌≡◌, ◌∙◌, false, none, some, List, [], ◌∷◌, arith, ltb, leb, if◌then◌else◌, Text,
  text_eq, text_eq_refl, lookup, delete_if, lookup-insert, lookup-delete, lookup-delete_if-none,
}
use re_terminal_eink_signage.Auth.Tokens.{Reset, ResetStore, put, peek, take}

-- What may happen to a store.
pub data Op : Type 0 where
  puts : ℕ → Text → Reset → Op
  takes : ℕ → Text → Op

abbrev pub step : Op → ResetStore → ResetStore
step (puts now token r) s = put now token r s
step (takes now token) s = (take now token s).1

unfoldable pub run : List Op → ResetStore → ResetStore
run [] s = s
run (o ∷ os) s = run os (step o s)

-- A token is not issued again.
unfoldable pub Unissued : Text → List Op → Type 0
Unissued token [] = zero ≡ zero
Unissued token (puts now token' r ∷ os) = (text_eq token' token ≡ false) × Unissued token os
Unissued token (takes now token' ∷ os) = Unissued token os

lookup-take :
    (now : ℕ) (token token' : Text) (s : ResetStore)
    → lookup token s ≡ none
    → lookup token (take now token' s).1 ≡ none
unfolding take
lookup-take now token token' s h = ground (arith, h, lookup-delete token' token s)

pub taken-none :
    (now : ℕ) (token : Text) (s : ResetStore) → lookup token (take now token s).1 ≡ none
unfolding take
taken-none now token s = ground (arith, lookup-delete token token s, text_eq_refl token)

run-none :
    (token : Text) (os : List Op) (s : ResetStore)
    → Unissued token os
    → lookup token s ≡ none
    → lookup token (run os s) ≡ none
unfolding run Unissued put
run-none token [] s u h = h
run-none token (puts now token' r ∷ os) s u h = run-none token os _ u.1 (
    lookup-insert token' token r _
    ∙ ground (arith, u.0, lookup-delete_if-none (λ k v. ltb v.expires now) token s h))
run-none token (takes now token' ∷ os) s u h =
    run-none token os _ u (lookup-take now token token' s h)

pub lookup-none :
    (token : Text) (now : ℕ) (s : ResetStore)
    → lookup token s ≡ none
    → (peek now token s ≡ none) × ((take now token s).0 ≡ none)
unfolding peek take
lookup-none token now s h = (ground (arith, h), ground (arith, h))

-- A token is good for one submission: once it was taken, valid or expired, neither a look nor
-- another take finds it, after whatever else happens, unless it is issued again.
pub take_once :
    (token : Text) (now later : ℕ) (os : List Op) (s : ResetStore)
    → Unissued token os
    → (peek later token (run os (take now token s).1) ≡ none)
      × ((take later token (run os (take now token s).1)).0 ≡ none)
take_once token now later os s u =
    lookup-none token later _ (run-none token os _ u (taken-none now token s))

-- A token that was put is found by a look, and given by a take, exactly until it expires.
pub take-put :
    (token : Text) (r : Reset) (now later : ℕ) (s : ResetStore)
    → ((take later token (put now token r s)).0 ≡ (if leb later r.expires then some r else none))
      × (peek later token (put now token r s) ≡ (if leb later r.expires then some r else none))
unfolding put take peek
take-put token r now later s =
    let found = lookup-insert token token r (delete_if (λ k v. ltb v.expires now) s) in
    (ground (arith, found, text_eq_refl token), ground (arith, found, text_eq_refl token))
