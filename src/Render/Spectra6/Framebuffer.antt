-- ===== src/Render/Spectra6/Framebuffer.antt =====
-- What `Pack` of spectra6.go writes, and when it panics.
use mathlib.Core.List.{append-nil}
use native.Mathlib.Decide.{dec_lt}
use re_terminal_eink_signage.Base.{
  ℕ, zero, suc, ◌+◌, ◌-◌, ◌*◌, ◌/◌, ◌%◌, ◌≤◌, ◌<◌, ◌≡◌, refl, ap, ◌∙◌, ◌⊎◌, inl, inr, Bool, true,
  ◌&&◌, none, some, List, [], ◌∷◌, ◌++◌, arith, ltb, ◌==◌, lt→ltb, ==_iff, Option-cases,
  get_elem?-append_left, get_elem?-append_end, >>=-eq-some, guard-eq-some, length, get_elem?,
  length-append,
}
use re_terminal_eink_signage.Render.Spectra6.{
  Paletted, code_for, pack_pair, pack_row, pack_rows, pack,
}

code_for-lt : (i : ℕ) → code_for i < 16
unfolding code_for
code_for-lt zero = omega arith
code_for-lt (suc zero) = omega arith
code_for-lt (suc (suc zero)) = omega arith
code_for-lt (suc (suc (suc zero))) = omega arith
code_for-lt (suc (suc (suc (suc zero)))) = omega arith
code_for-lt (suc (suc (suc (suc (suc zero))))) = omega arith
code_for-lt (suc (suc (suc (suc (suc (suc i)))))) = omega arith

-- A test that every byte passes, each byte tried.
passes_to : (ℕ → Bool) → ℕ → Bool
passes_to test zero = true
passes_to test (suc top) = passes_to test top && test top

passes_to-lt :
    (test : ℕ → Bool) (top byte : ℕ) → byte < top → passes_to test top ≡ true → test byte ≡ true
unfolding passes_to
passes_to-lt test zero byte lt h = absurd (omega arith)
passes_to-lt test (suc top) byte lt h = ground (arith, passes_to-lt test top byte)

nibbles_of_bytes : passes_to (λ b. pack_pair (b / 16) (b % 16) == b) 256 ≡ true
unfolding passes_to
nibbles_of_bytes = refl

pack_pair_lem : (hi lo : ℕ) → hi < 16 → lo < 16 → pack_pair hi lo ≡ hi * 16 + lo
pack_pair_lem hi lo h l =
    let paired =
      (==_iff _ (hi * 16 + lo)).0
        (passes_to-lt _ 256 (hi * 16 + lo) (omega arith) nibbles_of_bytes) in
    let high : (hi * 16 + lo) / 16 ≡ hi = omega arith in
    let low : (hi * 16 + lo) % 16 ≡ lo = omega arith in rw (high, low) at paired

-- The code of pixel x in row y, 0 where there is none.
abbrev pub code_at : Paletted → ℕ → ℕ → ℕ
code_at img y x = elim (get_elem? img.pix (y * img.stride + x)) [ none ↦ 0 | some v ↦ code_for v ]

-- All the pixels that are shown are there.
abbrev pub IsComplete : Paletted → Type 0
IsComplete img =
    (y x : ℕ)
    → y < img.height
    → x < img.width
    → (v : ℕ) × (get_elem? img.pix (y * img.stride + x) ≡ some v)

-- Byte j of row y, if a row takes m bytes, holds pixel 2j above pixel 2j + 1.
abbrev pub Holds : Paletted → ℕ → List ℕ → Type 0
Holds img m out =
    (y j : ℕ)
    → j < m
    → y * m + j < length out
    → get_elem? out (y * m + j) ≡ some (code_at img y (2 * j) * 16 + code_at img y (2 * j + 1))

same_row : (m y z i j : ℕ) → i < m → j < m → y * m + i ≡ z * m + j → y ≡ z
same_row m y z i j h k e = grind arith

code_at-eq :
    (img : Paletted) (y x : ℕ) {v : ℕ}
    → get_elem? img.pix (y * img.stride + x) ≡ some v
    → code_at img y x ≡ code_for v
code_at-eq img y x e = rw (e, code_at)

in_size : (y j m h : ℕ) → y < h → j < m → y * m + j < h * m
in_size y j m h p q = grind arith

module _ (img : Paletted) (m : ℕ) (even : img.width ≡ 2 * m) (complete : IsComplete img) where
  Holds-extend :
      (y j : ℕ) (out : List ℕ) (hi lo : ℕ)
      → j < m
      → length out ≡ y * m + j
      → get_elem? img.pix (y * img.stride + 2 * j) ≡ some hi
      → get_elem? img.pix (y * img.stride + (2 * j + 1)) ≡ some lo
      → Holds img m out
      → Holds img m (out ++ pack_pair (code_for hi) (code_for lo) ∷ [])
  Holds-extend y j out hi lo h e a b holds z i lt bound = elim (dec_lt (z * m + i) (length out)) [
    | yes old ↦ get_elem?-append_left out _ (z * m + i) old ∙ holds z i lt old
    | no new ↦
        let at_end : z * m + i ≡ length out =
          omega (arith, length-append out (pack_pair (code_for hi) (code_for lo) ∷ [])) in
        let row : z ≡ y = same_row m z y i j lt h (at_end ∙ e) in
        let column : i ≡ j = omega (arith, ap (λ (t : ℕ). t * m) row) in
        get_elem?-append_end out [] _ (z * m + i) at_end
        ∙ ap some (
            pack_pair_lem (code_for hi) (code_for lo) (code_for-lt hi) (code_for-lt lo)
            ∙ rw (row, column, code_at-eq img y (2 * j) a, code_at-eq img y (2 * j + 1) b))
  ]

  pack_row-Holds :
      (rounds j y : ℕ) (out : List ℕ)
      → j + rounds ≡ m
      → y < img.height
      → length out ≡ y * m + j
      → Holds img m out
      → (out' : List ℕ) × (pack_row img (img.height * m) (y * img.stride) rounds (2 * j) out
          ≡ some out')
        × (length out' ≡ y * m + m)
        × Holds img m out'
  unfolding pack_row
  pack_row-Holds zero j y out e h l holds = (out, refl, omega arith, holds)
  pack_row-Holds (suc rounds) j y out e h l holds =
      let (hi, a) = complete y (2 * j) h (omega arith) in
      let (lo, b) = complete y (2 * j + 1) h (omega arith) in
      let out1 = out ++ pack_pair (code_for hi) (code_for lo) ∷ [] in
      let grown = length-append out (pack_pair (code_for hi) (code_for lo) ∷ []) in
      let (out', r, l', holds') =
        pack_row-Holds rounds (j + 1) y out1 (omega arith) h (omega (arith, grown))
          (Holds-extend y j out hi lo (omega arith) l a b holds) in
      (out', step a b r, l', holds')
    where
      next : 2 * j + 2 ≡ 2 * (j + 1)
      next = omega arith

      fits : ltb (length out) (img.height * m) ≡ true
      fits = lt→ltb _ _ (omega (arith, in_size y j m img.height h (omega arith)))

      later : y * img.stride + 2 * j + 1 ≡ y * img.stride + (2 * j + 1)
      later = omega arith

      step :
          {hi lo : ℕ} {out' : List ℕ}
          → get_elem? img.pix (y * img.stride + 2 * j) ≡ some hi
          → get_elem? img.pix (y * img.stride + (2 * j + 1)) ≡ some lo
          → pack_row img
              (img.height * m)
              (y * img.stride)
              rounds
              (2 * (j + 1))
              (out ++ pack_pair (code_for hi) (code_for lo) ∷ [])
            ≡ some out'
          → pack_row img (img.height * m) (y * img.stride) (suc rounds) (2 * j) out ≡ some out'
      step a b r = rw a (rw later (rw b (rw fits (rw next r))))

  pack_rows-Holds :
      (rounds y : ℕ) (out : List ℕ)
      → y + rounds ≡ img.height
      → length out ≡ y * m
      → Holds img m out
      → (out' : List ℕ) × (pack_rows img (img.height * m) rounds y out ≡ some out')
        × (length out' ≡ img.height * m)
        × Holds img m out'
  unfolding pack_rows
  pack_rows-Holds zero y out e l holds = (out, refl, omega (arith, ap (λ (t : ℕ). t * m) e), holds)
  pack_rows-Holds (suc rounds) y out e l holds =
      let (out1, r, l1, holds1) =
        pack_row-Holds m 0 y out (omega arith) (omega arith) (omega arith) holds in
      let (out', r', l', holds') =
        pack_rows-Holds rounds (y + 1) out1 (omega arith) (omega arith) holds1 in
      (out', rw half (rw r r'), l', holds')
    where
      half : (img.width + 1) / 2 ≡ m
      half = omega arith

  -- An image with all its pixels and of even width is packed without a panic, into two pixels for
  -- each byte: byte j of row y has the code of pixel 2j in its high nibble and that of pixel 2j + 1
  -- in its low one, and nothing is left over.
  pub pack-Holds :
      (out : List ℕ) × (pack img ≡ some out)
      × (length out ≡ img.width * img.height / 2)
      × Holds img m out
  unfolding pack
  pack-Holds =
      let (out, r, l, holds) =
        pack_rows-Holds img.height 0 [] (omega arith) (omega arith)
          (λ y j lt none_yet. absurd (omega arith)) in
      let rest : img.height * m - length out ≡ 0 = omega arith in
      (out, rw size (rw r (rw rest (rw append-nil))), rw size l, holds)
    where
      size : img.width * img.height / 2 ≡ img.height * m
      size = ap (λ (t : ℕ). t * img.height / 2) even ∙ omega arith

-- A row adds one byte for each round, and never more than `size` bytes in all.
pack_row_grows :
    (img : Paletted) (size row rounds x : ℕ) (out out' : List ℕ)
    → pack_row img size row rounds x out ≡ some out'
    → (length out' ≡ length out + rounds) × ((rounds ≡ 0) ⊎ (length out' ≤ size))
unfolding pack_row
pack_row_grows img size row zero x out out' e = ground arith
pack_row_grows img size row (suc rounds) x out out' e =
    let (hi, e1, f1) = >>=-eq-some (get_elem? img.pix (row + x)) _ e in
    let (lo, e2, f2) = >>=-eq-some (get_elem? img.pix (row + x + 1)) _ f1 in
    let (fits, f3) = guard-eq-some (ltb (length out) size) _ f2 in
    ground (
      arith,
      fits,
      length-append out (pack_pair (code_for hi) (code_for lo) ∷ []),
      pack_row_grows img size row rounds (x + 2) (out ++ pack_pair (code_for hi) (code_for lo) ∷ [])
          out' f3,
    )

pack_rows_grow :
    (img : Paletted) (size rounds y : ℕ) (out out' : List ℕ)
    → pack_rows img size rounds y out ≡ some out'
    → length out ≤ size
    → (length out' ≡ length out + rounds * ((img.width + 1) / 2)) × (length out' ≤ size)
unfolding pack_rows
pack_rows_grow img size zero y out out' e le = ground arith
pack_rows_grow img size (suc rounds) y out out' e le =
    let (out1, e1, f1) = >>=-eq-some _ _ e in
    let grown = pack_row_grows img size (y * img.stride) ((img.width + 1) / 2) 0 out out1 e1 in
    let (a, b) = pack_rows_grow img size rounds (y + 1) out1 out' f1 (omega arith) in
    (omega arith, b)

-- An image of odd width that has a row cannot be packed: `Pack` panics.
pack_odd_width : (img : Paletted) (m : ℕ) → img.width ≡ 2 * m + 1 → 0 < img.height → pack img ≡ none
unfolding pack
pack_odd_width img m odd pos =
    elim (Option-cases (pack_rows img (img.width * img.height / 2) img.height 0 [])) [
      | inl e ↦ rw e
      | inr (out, e) ↦
          let (a, b) = pack_rows_grow img _ img.height 0 [] out e (omega arith) in
          absurd
            (omega (arith, ap (λ (t : ℕ). img.height * t) half, ap (λ (t : ℕ). t * img.height) odd))
    ]
  where
    half : (img.width + 1) / 2 ≡ m + 1
    half = omega arith
