-- ===== src/Examples/Frames.antt =====
-- A frame of a few pixels, from the image to the panel.
use re_terminal_eink_signage.Base.{
  ℕ, zero, suc, ◌≡◌, refl, true, some, List, [], ◌∷◌, arith, length,
}
use re_terminal_eink_signage.Render.PackBits.{pack_bits, packbits_decode}
use re_terminal_eink_signage.Render.PackBits.RoundTrip.{packbits_decode-pack_bits}
use re_terminal_eink_signage.Render.Payload.{Panel, Payload, encode, receive}
use re_terminal_eink_signage.Render.Payload.RoundTrip.{receive-encode}
use re_terminal_eink_signage.Render.Spectra6.{Rgb, Paletted, nearest_index, pack}
use re_terminal_eink_signage.Render.Spectra6.Framebuffer.{IsComplete, Holds, pack-Holds}
use re_terminal_eink_signage.Render.Spectra6.Nearest.{
  IsNearest, candidates_for, nearest_index-IsNearest,
}

abbrev bytes : List ℕ
bytes = 7 ∷ 7 ∷ 7 ∷ 1 ∷ 2 ∷ []

packbits_decode-pack_bits_example :
    (code : List ℕ) × (pack_bits bytes ≡ some code)
    × (packbits_decode code (length bytes) ≡ some bytes)
packbits_decode-pack_bits_example = packbits_decode-pack_bits bytes

-- A run of three and a literal of two.
packed_bytes : pack_bits bytes ≡ some (254 ∷ 7 ∷ 1 ∷ 1 ∷ 2 ∷ [])
unfolding pack_bits
packed_bytes = refl

abbrev panel : Panel
panel = record { width = 4; height = 2; raw_len = 4 }

abbrev framebuffer : List ℕ
framebuffer = 0x11 ∷ 0x11 ∷ 0x11 ∷ 0x63 ∷ []

receive-encode_example :
    (p : Payload) × (encode framebuffer 4 2 0 true ≡ some p)
    × (receive panel p.bytes ≡ some framebuffer)
receive-encode_example =
    receive-encode panel framebuffer 0 true refl (omega arith) (omega arith) (omega arith)
      (omega arith)

abbrev brick : Rgb
brick = record { r = 200; g = 40; b = 30 }

nearest_index-IsNearest_example : IsNearest brick (candidates_for brick) (nearest_index brick)
nearest_index-IsNearest_example =
    nearest_index-IsNearest brick (omega arith) (omega arith) (omega arith)

abbrev image : Paletted
image = record { pix = 0 ∷ 1 ∷ 3 ∷ 5 ∷ []; stride = 2; width = 2; height = 2 }

image-IsComplete : IsComplete image
image-IsComplete zero zero h k = (0, refl)
image-IsComplete zero (suc zero) h k = (1, refl)
image-IsComplete zero (suc (suc x)) h k = absurd (omega arith)
image-IsComplete (suc zero) zero h k = (3, refl)
image-IsComplete (suc zero) (suc zero) h k = (5, refl)
image-IsComplete (suc zero) (suc (suc x)) h k = absurd (omega arith)
image-IsComplete (suc (suc y)) x h k = absurd (omega arith)

pack-Holds_example : (out : List ℕ) × (pack image ≡ some out) × (length out ≡ 2) × Holds image 1 out
pack-Holds_example = pack-Holds image 1 refl image-IsComplete

packed_image : pack image ≡ some (0x01 ∷ 0x36 ∷ [])
unfolding pack
packed_image = refl

abbrev odd_image : Paletted
odd_image = record { pix = 0 ∷ 1 ∷ 3 ∷ []; stride = 3; width = 3; height = 1 }
