-- ===== src/Render/Spectra6.antt =====
-- backend/internal/render/spectra6.go: the six inks, the nearest one to a color, and the packed
-- framebuffer. A color component is a number below 256.
pub mod Nearest
pub mod Framebuffer
use Prim.Native.Nat.{bit_or}
use mathlib.Core.Option
use re_terminal_eink_signage.Base.{
  ◌>>=◌, ◌>>◌, ℕ, zero, suc, ◌+◌, ◌-◌, ◌*◌, ◌/◌, ◌%◌, ◌^◌, Bool, Option, none, some, List, [], ◌∷◌,
  ◌++◌, map, ltb, leb, if◌then◌else◌, guard, length, get_elem?, take, replicate,
}

-- The panel's color codes.
abbrev pub code_black : ℕ
code_black = 0x0

abbrev pub code_white : ℕ
code_white = 0x1

abbrev pub code_yellow : ℕ
code_yellow = 0x2

abbrev pub code_red : ℕ
code_red = 0x3

abbrev pub code_blue : ℕ
code_blue = 0x5

abbrev pub code_green : ℕ
code_green = 0x6

-- `color.RGBA`; the alpha is always 0xFF.
pub record Rgb : Type 0 where
  pub r : ℕ
  pub g : ℕ
  pub b : ℕ

pub record PalEntry : Type 0 where
  pub c : Rgb
  pub code : ℕ

abbrev pub entry : ℕ → ℕ → ℕ → ℕ → PalEntry
entry r g b code = record { c = record { r = r; g = g; b = b }; code = code }

abbrev pub palette : List PalEntry
palette =
    entry 0x00 0x00 0x00 code_black
    ∷ entry 0xFF 0xFF 0xFF code_white
    ∷ entry 0xE0 0xC8 0x10 code_yellow
    ∷ entry 0xC0 0x20 0x20 code_red
    ∷ entry 0x20 0x30 0xA0 code_blue
    ∷ entry 0x20 0x80 0x40 code_green
    ∷ []

abbrev pub achromatic_tolerance : ℕ
achromatic_tolerance = 12

-- `maxC` is at least `minC`, so that the truncated difference is exact.
unfoldable pub is_achromatic : Rgb → Bool
is_achromatic c =
    let max_c = if ltb c.r c.g then c.g else c.r in
    let max_c' = if ltb max_c c.b then c.b else max_c in
    let min_c = if ltb c.g c.r then c.g else c.r in
    let min_c' = if ltb c.b min_c then c.b else min_c in leb (max_c' - min_c') achromatic_tolerance

-- The square of a difference of two components.
abbrev pub square_diff : ℕ → ℕ → ℕ
square_diff x y = let d = (x - y) + (y - x) in d * d

-- The luma-weighted distance `d`.
pub distance : Rgb → Rgb → ℕ
distance c p = 2 * square_diff c.r p.r + 4 * square_diff c.g p.g + 3 * square_diff c.b p.b

-- The loop of `nearestAmong`, at candidate `i`.
nearest_loop : Rgb → List PalEntry → ℕ → ℕ → ℕ → ℕ
nearest_loop c [] i best best_d = best
nearest_loop c (p ∷ ps) i best best_d =
    let d = distance c p.c in
    let closer = ltb d best_d in
    nearest_loop c ps (i + 1) (if closer then i else best) (if closer then d else best_d)

pub nearest_among : Rgb → List PalEntry → ℕ
unfolding nearest_loop distance
nearest_among c candidates = nearest_loop c candidates 0 0 (2 ^ 31)

pub nearest_index : Rgb → ℕ
unfolding nearest_among is_achromatic
nearest_index c = nearest_among c (if is_achromatic c then take 2 palette else palette)

-- `image.Paletted`: palette indices in rows of `stride`, of which the first `width` are shown.
pub record Paletted : Type 0 where
  pub pix : List ℕ
  pub stride : ℕ
  pub width : ℕ
  pub height : ℕ

unfoldable pub code_for : ℕ → ℕ
code_for pal_idx = elim (get_elem? palette pal_idx) [ none ↦ code_white | some p ↦ p.code ]

-- `byte(hi)<<4 | byte(lo)`.
abbrev pub pack_pair : ℕ → ℕ → ℕ
pack_pair hi lo = bit_or (hi * 16 % 256) lo

-- `for x := 0; x < w; x += 2` from `x` on, for the rounds left; `none` is the panic of an index out
-- of range, in `img.Pix` or in `out`, which has `size` bytes.
pack_row : Paletted → ℕ → ℕ → ℕ → ℕ → List ℕ → Option (List ℕ)
pack_row img size row zero x out = some out
pack_row img size row (suc rounds) x out = do
  hi ← get_elem? img.pix (row + x)
  lo ← get_elem? img.pix (row + x + 1)
  guard (ltb (length out) size)
  pack_row img size row rounds (x + 2) (out ++ pack_pair (code_for hi) (code_for lo) ∷ [])

-- `for y := 0; y < h; y++` from `y` on.
pack_rows : Paletted → ℕ → ℕ → ℕ → List ℕ → Option (List ℕ)
pack_rows img size zero y out = some out
pack_rows img size (suc rounds) y out = do
  out' ← pack_row img size (y * img.stride) ((img.width + 1) / 2) 0 out
  pack_rows img size rounds (y + 1) out'

-- `out` is written from its start and stands for `out[0:oi]`; the rest of it is still 0.
unfoldable pub pack : Paletted → Option (List ℕ)
unfolding pack_rows pack_row code_for
pack img =
    let size = img.width * img.height / 2 in
    Option.map (λ out. out ++ replicate (size - length out) 0) (pack_rows img size img.height 0 [])
