-- ===== src/Render/Spectra6/Nearest.antt =====
-- The ink that spectra6.go takes for a color.
use re_terminal_eink_signage.Base.{
  ℕ, suc, ◌+◌, ◌-◌, ◌*◌, ◌^◌, ◌≤◌, ◌<◌, ◌≡◌, refl, sym, ap, ◌∙◌, subst, ◌⊎◌, inl, inr, some, List,
  [], ◌∷◌, arith, ltb, if◌then◌else◌, ltb→lt, Bool-cases, get_elem?, take, drop, All,
}
use re_terminal_eink_signage.Render.Spectra6.{
  Rgb, PalEntry, palette, square_diff, is_achromatic, distance, nearest_loop, nearest_among,
  nearest_index,
}

-- The loop's result: the best candidate so far, or one of the rest, at a least distance.
abbrev Found : Rgb → List PalEntry → ℕ → ℕ → ℕ → ℕ → Type 0
Found c ps i best best_d j =
    (d : ℕ) × (((j ≡ best) × (d ≡ best_d))
      ⊎ ((k : ℕ) × (q : PalEntry) × (j ≡ i + k) × (get_elem? ps k ≡ some q) × (distance c q.c ≡ d)))
    × (d ≤ best_d)
    × All (λ p. d ≤ distance c p.c) ps

Found-later :
    (c : Rgb) (p : PalEntry) (ps : List PalEntry) (i best best_d j : ℕ)
    → best_d ≤ distance c p.c
    → Found c ps (i + 1) best best_d j
    → Found c (p ∷ ps) i best best_d j
Found-later c p ps i best best_d j h (d, inl (e, f), le, rest) =
    (d, inl (e, f), le, (omega arith, rest))
Found-later c p ps i best best_d j h (d, inr (k, q, e, g, f), le, rest) =
    (d, inr (suc k, q, omega arith, g, f), le, (omega arith, rest))

Found-here :
    (c : Rgb) (p : PalEntry) (ps : List PalEntry) (i best best_d j : ℕ)
    → distance c p.c < best_d
    → Found c ps (i + 1) i (distance c p.c) j
    → Found c (p ∷ ps) i best best_d j
Found-here c p ps i best best_d j h (d, inl (e, f), le, rest) =
    (d, inr (0, p, omega arith, refl, sym f), omega arith, (omega arith, rest))
Found-here c p ps i best best_d j h (d, inr (k, q, e, g, f), le, rest) =
    (d, inr (suc k, q, omega arith, g, f), omega arith, (omega arith, rest))

nearest_loop-Found :
    (c : Rgb) (ps : List PalEntry) (i best best_d : ℕ)
    → Found c ps i best best_d (nearest_loop c ps i best best_d)
unfolding nearest_loop
nearest_loop-Found c [] i best best_d = (best_d, inl (refl, refl), omega arith, tt)
nearest_loop-Found c (p ∷ ps) i best best_d = elim (Bool-cases (ltb (distance c p.c) best_d)) [
  | inl closer ↦
      rw (closer, nearest_loop)
        (Found-here c p ps i best best_d _ (ltb→lt _ _ closer)
          (nearest_loop-Found c ps (i + 1) i (distance c p.c)))
  | inr farther ↦
      rw (farther, nearest_loop)
        (Found-later c p ps i best best_d _ (ground arith)
          (nearest_loop-Found c ps (i + 1) best best_d))
]

-- The index is that of a candidate, and no candidate is nearer.
abbrev pub IsNearest : Rgb → List PalEntry → ℕ → Type 0
IsNearest c candidates j =
    (q : PalEntry) × (get_elem? candidates j ≡ some q)
    × All (λ p. distance c q.c ≤ distance c p.c) candidates

Found-IsNearest :
    (c : Rgb) (p : PalEntry) (ps : List PalEntry) (j : ℕ)
    → distance c p.c < 2 ^ 31
    → Found c (p ∷ ps) 0 0 (2 ^ 31) j
    → IsNearest c (p ∷ ps) j
Found-IsNearest c p ps j small (d, inl (e, f), le, all) = absurd (omega (arith, all.0))
Found-IsNearest c p ps j small (d, inr (k, q, e, g, f), le, all) = (
  q,
  ap (get_elem? (p ∷ ps)) (omega arith) ∙ g,
  subst (λ (m : ℕ). All (λ p'. m ≤ distance c p'.c) (p ∷ ps)) (sym f) all,
)

-- Components below 256 keep the distance from black under the loop's start value.
square-le : (x : ℕ) → x < 256 → x * x ≤ 65025
square-le x h = grind arith

square_diff-zero : (x : ℕ) → x < 256 → square_diff x 0 ≤ 65025
square_diff-zero x h = square-le (x - 0 + (0 - x)) (omega arith)

black-near :
    (c : Rgb)
    → c.r < 256
    → c.g < 256
    → c.b < 256
    → distance c (record { r = 0; g = 0; b = 0 }) < 2 ^ 31
unfolding distance
black-near c hr hg hb =
    omega (arith, square_diff-zero c.r hr, square_diff-zero c.g hg, square_diff-zero c.b hb)

abbrev pub candidates_for : Rgb → List PalEntry
candidates_for c = if is_achromatic c then take 2 palette else palette

-- For a color with components below 256, the index is that of an ink it may take (black or white if
-- it is achromatic, else any of the six), and no ink it may take is nearer.
pub nearest_index-IsNearest :
    (c : Rgb) → c.r < 256 → c.g < 256 → c.b < 256 → IsNearest c (candidates_for c) (nearest_index c)
unfolding nearest_index nearest_among
nearest_index-IsNearest c hr hg hb = elim (Bool-cases (is_achromatic c)) [
  | inl gray ↦
      rw (gray, nearest_index)
        (Found-IsNearest c _ (drop 1 (take 2 palette)) _ (black-near c hr hg hb)
          (nearest_loop-Found c (take 2 palette) 0 0 (2 ^ 31)))
  | inr colored ↦
      rw (colored, nearest_index)
        (Found-IsNearest c _ (drop 1 palette) _ (black-near c hr hg hb)
          (nearest_loop-Found c palette 0 0 (2 ^ 31)))
]
