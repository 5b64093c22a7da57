-- ===== src/Auth/Sessions/Unique.antt =====
-- The session map of session.go has each key once, as a Go map does.
use re_terminal_eink_signage.Base.{
  zero, ◌≡◌, refl, ap, Bool, true, Option, none, some, List, [], ◌∷◌, arith, if◌then◌else◌, Text,
  text_eq, text_eq→eq, text_eq_iff, lookup, insert, delete_if, delete, lookup-insert, lookup-delete,
  lookup-delete_if-none,
}

module _ {V : Type 0} where
  unfoldable pub Unique : List (Text × V) → Type 0
  Unique [] = zero ≡ zero
  Unique ((k, v) ∷ m) = (lookup k m ≡ none) × Unique m

  unfoldable pub kept : (V → Bool) → Option V → Option V
  kept p none = none
  kept p (some v) = if p v then none else some v

  pub lookup-delete_if :
      (p : V → Bool) (j : Text) (m : List (Text × V))
      → Unique m
      → lookup j (delete_if (λ k. p) m) ≡ kept p (lookup j m)
  unfolding lookup delete_if Unique kept
  lookup-delete_if p j [] u = refl
  lookup-delete_if p j ((k, v) ∷ m) u = ground (
    arith,
    lookup-delete_if p j m u.1,
    u.0,
    λ (e : text_eq k j ≡ true). ap (λ i. lookup i m) (text_eq→eq k j e),
  )

  pub delete_if-Unique :
      (p : Text → V → Bool) (m : List (Text × V)) → Unique m → Unique (delete_if p m)
  unfolding delete_if Unique
  delete_if-Unique p [] u = u
  delete_if-Unique p ((k, v) ∷ m) u =
      ground (arith, delete_if-Unique p m u.1, lookup-delete_if-none p k m u.0)

  pub delete-Unique : (j : Text) (m : List (Text × V)) → Unique m → Unique (delete j m)
  unfolding delete Unique
  delete-Unique j [] u = u
  delete-Unique j ((k, v) ∷ m) u = ground (arith, delete-Unique j m u.1, u.0, lookup-delete j k m)

  pub insert-Unique : (j : Text) (w : V) (m : List (Text × V)) → Unique m → Unique (insert j w m)
  unfolding insert Unique lookup
  insert-Unique j w [] u = (refl, refl)
  insert-Unique j w ((k, v) ∷ m) u = ground (
    arith,
    insert-Unique j w m u.1,
    u.0,
    u.1,
    lookup-insert j k w m,
    text_eq_iff k j,
    text_eq_iff j k,
    λ (e : text_eq k j ≡ true). ap (λ i. lookup i m) (text_eq→eq k j e),
  )
