-- ===== src/Auth/Tokens/RateLimit.antt =====
-- The limit on reset mails of forgot_password.go.
use re_terminal_eink_signage.Base.{
  ℕ, zero, ◌+◌, ◌-◌, ◌≤◌, ◌≡◌, refl, ◌∙◌, inl, inr, true, false, ◌&&◌, Option, some, List, [], ◌∷◌,
  arith, leb, if◌then◌else◌, Bool-cases, Text, text_eq, text_eq→eq, text_eq_refl, lookup,
  lookup-insert,
}
use re_terminal_eink_signage.Auth.Tokens.{RateWindow, window_of, allow}

-- Requests: the key and the time of each.
abbrev pub Requests : Type 0
Requests = List (Text × ℕ)

module _ (limit window : ℕ) where
  -- How many requests of a key are allowed.
  unfoldable pub allowed : Text → Requests → List (Text × RateWindow) → ℕ
  allowed k [] counts = 0
  allowed k ((key, now) ∷ reqs) counts =
      (if text_eq key k && (allow key limit window now counts).0 then 1 else 0)
      + allowed k reqs (allow key limit window now counts).1

  -- Every request of a key comes at a time or before.
  unfoldable pub Until : ℕ → Text → Requests → Type 0
  Until end k [] = zero ≡ zero
  Until end k ((key, now) ∷ reqs) = (text_eq key k ≡ true → now ≤ end) × Until end k reqs

  same-window :
      (o : Option RateWindow) (w : RateWindow) (now : ℕ)
      → o ≡ some w
      → now ≤ w.reset
      → window_of o now window ≡ w
  same-window o w now h le = rw h (ground arith)

  counted :
      (k : Text) (now : ℕ) (w : RateWindow) (counts : List (Text × RateWindow))
      → window_of (lookup k counts) now window ≡ w
      → ((allow k limit window now counts).0 ≡ leb (w.count + 1) limit)
        × (lookup k (allow k limit window now counts).1 ≡ some (record w { count = w.count + 1 }))
  unfolding allow
  counted k now w counts h =
      rw (h, lookup-insert k k (record w { count = w.count + 1 }) counts, text_eq_refl k)
        (refl, refl)

  others :
      (k key : Text) (now : ℕ) (counts : List (Text × RateWindow))
      → text_eq key k ≡ false
      → lookup k (allow key limit window now counts).1 ≡ lookup k counts
  unfolding allow
  others k key now counts e = lookup-insert key k _ counts ∙ rw e refl

  open-allowed :
      (k : Text) (w : RateWindow) (reqs : Requests) (counts : List (Text × RateWindow))
      → lookup k counts ≡ some w
      → Until w.reset k reqs
      → allowed k reqs counts ≤ limit - w.count
  unfolding allowed Until
  open-allowed k w [] counts h u = ground arith
  open-allowed k w ((key, now) ∷ reqs) counts h u = elim (Bool-cases (text_eq key k)) [
    | inl e ↦
        let same = text_eq→eq key k e in
        let c = counted k now w counts (same-window _ w now h (u.0 e)) in
        let rest = open-allowed k (record w { count = w.count + 1 }) reqs _ c.1 u.1 in
        rw (same, text_eq_refl k, c.0) (ground (arith, rest))
    | inr e ↦
        let rest = open-allowed k w reqs _ (others k key now counts e ∙ h) u.1 in
        rw e (ground (arith, rest))
  ]

  -- No more than `limit` mails in a window: from the request that opens a window for its key, when
  -- there was none or it was over, until the window ends, at most `limit` requests of the key are
  -- allowed, that one included, whatever comes for other keys.
  pub allowed_bound :
      (k : Text) (now : ℕ) (reqs : Requests) (counts : List (Text × RateWindow))
      → window_of (lookup k counts) now window ≡ record { count = 0; reset = now + window }
      → Until (now + window) k reqs
      → allowed k ((k, now) ∷ reqs) counts ≤ limit
  unfolding allowed
  allowed_bound k now reqs counts h u =
      let c = counted k now (record { count = 0; reset = now + window }) counts h in
      let rest = open-allowed k (record { count = 1; reset = now + window }) reqs _ c.1 u in
      rw (text_eq_refl k, c.0) (ground (arith, rest))
