-- ===== src/Base/Assoc.antt =====
-- Go's `map[string]V` as an association list: the first entry of a key counts.
use re_terminal_eink_signage.Base.Tests.{
  ◌≡◌, refl, Bool, Option, none, some, List, [], ◌∷◌, arith, if◌then◌else◌, inl, inr, Bool-cases,
  subst, some_injective,
}
use re_terminal_eink_signage.Base.Lists.{All}
use re_terminal_eink_signage.Base.Texts.{Text, text_eq, text_eq_iff}

module _ {ℓ} {V : Type ℓ} where
  -- `v, ok := m[k]`.
  unfoldable pub lookup : Text → List (Text × V) → Option V
  lookup k [] = none
  lookup k ((j, v) ∷ m) = if text_eq j k then some v else lookup k m

  -- `m[k] = v`.
  unfoldable pub insert : Text → V → List (Text × V) → List (Text × V)
  insert k v [] = (k, v) ∷ []
  insert k v ((j, w) ∷ m) = if text_eq j k then (k, v) ∷ m else (j, w) ∷ insert k v m

  -- `for k, v := range m { if p(k, v) { delete(m, k) } }`.
  unfoldable pub delete_if : (Text → V → Bool) → List (Text × V) → List (Text × V)
  delete_if p [] = []
  delete_if p ((j, w) ∷ m) = if p j w then delete_if p m else (j, w) ∷ delete_if p m

  -- `delete(m, k)`.
  unfoldable pub delete : Text → List (Text × V) → List (Text × V)
  delete k [] = []
  delete k ((j, w) ∷ m) = if text_eq j k then delete k m else (j, w) ∷ delete k m

  pub lookup-insert :
      (k j : Text) (v : V) (m : List (Text × V))
      → lookup j (insert k v m) ≡ (if text_eq k j then some v else lookup j m)
  unfolding lookup insert
  lookup-insert k j v [] = refl
  lookup-insert k j v ((i, w) ∷ m) =
      ground (arith, text_eq_iff k j, text_eq_iff i k, text_eq_iff i j, lookup-insert k j v m)

  pub lookup-delete :
      (k j : Text) (m : List (Text × V))
      → lookup j (delete k m) ≡ (if text_eq k j then none else lookup j m)
  unfolding lookup delete
  lookup-delete k j [] = ground arith
  lookup-delete k j ((i, w) ∷ m) =
      ground (arith, text_eq_iff k j, text_eq_iff i k, text_eq_iff i j, lookup-delete k j m)

  -- What survives a sweep was there, and is not swept; the sweep of a key that is there once
  -- gives its value or nothing.
  pub lookup-delete_if-none :
      (p : Text → V → Bool) (j : Text) (m : List (Text × V))
      → lookup j m ≡ none
      → lookup j (delete_if p m) ≡ none
  unfolding lookup delete_if
  lookup-delete_if-none p j [] h = refl
  lookup-delete_if-none p j ((i, w) ∷ m) h = ground (arith, lookup-delete_if-none p j m)

  -- What every value keeps.
  pub All-insert {κ} :
      (P : V → Type κ) (k : Text) (v : V) (m : List (Text × V))
      → P v
      → All (λ e. P e.1) m
      → All (λ e. P e.1) (insert k v m)
  unfolding insert
  All-insert P k v [] p a = (p, tt)
  All-insert P k v ((j, w) ∷ m) p a = elim (Bool-cases (text_eq j k)) [
    | inl e ↦ rw (insert, e) (p, a.1)
    | inr e ↦ rw (insert, e) (a.0, All-insert P k v m p a.1)
  ]

  pub All-delete_if {κ} :
      (P : V → Type κ) (p : Text → V → Bool) (m : List (Text × V))
      → All (λ e. P e.1) m
      → All (λ e. P e.1) (delete_if p m)
  unfolding delete_if
  All-delete_if P p [] a = tt
  All-delete_if P p ((j, w) ∷ m) a = elim (Bool-cases (p j w)) [
    | inl e ↦ rw (delete_if, e) (All-delete_if P p m a.1)
    | inr e ↦ rw (delete_if, e) (a.0, All-delete_if P p m a.1)
  ]

  pub All-delete {κ} :
      (P : V → Type κ) (k : Text) (m : List (Text × V))
      → All (λ e. P e.1) m
      → All (λ e. P e.1) (delete k m)
  unfolding delete
  All-delete P k [] a = tt
  All-delete P k ((j, w) ∷ m) a = elim (Bool-cases (text_eq j k)) [
    | inl e ↦ rw (delete, e) (All-delete P k m a.1)
    | inr e ↦ rw (delete, e) (a.0, All-delete P k m a.1)
  ]

  pub All-lookup {κ} :
      (P : V → Type κ) (k : Text) (v : V) (m : List (Text × V))
      → All (λ e. P e.1) m
      → lookup k m ≡ some v
      → P v
  unfolding lookup
  All-lookup P k v [] a h = cc
  All-lookup P k v ((j, w) ∷ m) a h = elim (Bool-cases (text_eq j k)) [
    | inl e ↦ subst P (some_injective (rw (lookup, e) at h)) a.0
    | inr e ↦ All-lookup P k v m a.1 (rw (lookup, e) at h)
  ]
