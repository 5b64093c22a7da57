-- ===== src/Render/Payload/RoundTrip.antt =====
-- What a device reads from a payload.
use re_terminal_eink_signage.Base.{
  ℕ, zero, suc, ◌^◌, ◌≤◌, ◌<◌, ◌≡◌, refl, ap, ◌∙◌, Bool, true, false, not, some, List, [], ◌∷◌,
  ◌++◌, arith, leb, ◌==◌, if◌then◌else◌, le→leb, length, take, text_eq,
}
use Prim.Native.Nat.{bit_and}
use re_terminal_eink_signage.Crc.{checksum_ieee, checksum_ieee-lt}
use re_terminal_eink_signage.Render.PackBits.{packbits_decode}
use re_terminal_eink_signage.Render.PackBits.RoundTrip.{packbits_decode-pack_bits}
use re_terminal_eink_signage.Render.Payload.{
  le16, le32, Payload, flags_of, header, with_body, encode, Header, take_le, parse_header,
  flag_compressed, Panel, show, receive,
}

abbrev pub header_of : ℕ → ℕ → ℕ → ℕ → ℕ → ℕ → ℕ → Header
header_of flags width height body_len raw_len next_wake_s crc = record {
  version = 1;
  flags = flags;
  width = width;
  height = height;
  bpp = 4;
  payload_len = body_len;
  raw_len = raw_len;
  next_wake_s = next_wake_s;
  content_crc32 = crc;
}

-- The firmware reads back every field that the broker wrote, each within its width, and the body
-- behind the header.
pub parse_header-header :
    (flags width height body_len raw_len next_wake_s crc : ℕ) (body : List ℕ)
    → flags < 2 ^ 16
    → width < 2 ^ 16
    → height < 2 ^ 16
    → body_len < 2 ^ 32
    → raw_len < 2 ^ 32
    → next_wake_s < 2 ^ 32
    → crc < 2 ^ 32
    → parse_header (header flags width height body_len raw_len next_wake_s crc ++ body)
      ≡ some (header_of flags width height body_len raw_len next_wake_s crc, body)
unfolding parse_header header le16 le32 take_le text_eq
parse_header-header flags width height body_len raw_len next_wake_s crc body a b c d e f g =
    ground arith

take-length : {A : Type 0} (xs : List A) (n : ℕ) → n ≡ length xs → take n xs ≡ xs
take-length [] zero e = refl
take-length [] (suc n) e = absurd (omega arith)
take-length (x ∷ xs) zero e = absurd (omega arith)
take-length (x ∷ xs) (suc n) e = ap (λ t. x ∷ t) (take-length xs n (omega arith))

flags_of-compressed : (full : Bool) → (bit_and (flags_of true full) flag_compressed == 0) ≡ false
flags_of-compressed true = refl
flags_of-compressed false = refl

flags_of-raw : (full : Bool) → (bit_and (flags_of false full) flag_compressed == 0) ≡ true
flags_of-raw true = refl
flags_of-raw false = refl

flags_of-lt : (compressed full : Bool) → flags_of compressed full < 2 ^ 16
flags_of-lt true true = omega arith
flags_of-lt true false = omega arith
flags_of-lt false true = omega arith
flags_of-lt false false = omega arith

-- The device rebuilds the framebuffer from either body.
show-body :
    (panel : Panel) (packed packbits : List ℕ) (compressed full : Bool) (h : Header)
    → length packed ≡ panel.raw_len
    → packbits_decode packbits (length packed) ≡ some packed
    → h.width ≡ panel.width
    → h.height ≡ panel.height
    → h.flags ≡ flags_of compressed full
    → show panel (if compressed then packbits else packed) h ≡ some packed
unfolding show
show-body panel packed packbits true full h e d w t f = ground (arith, flags_of-compressed full, d)
show-body panel packed packbits false full h e d w t f =
    ground (arith, flags_of-raw full, take-length packed panel.raw_len)

-- A body of at most the framebuffer's length is received whole.
receive-header :
    (panel : Panel) (flags raw_len next_wake_s crc : ℕ) (body : List ℕ)
    → flags < 2 ^ 16
    → panel.width < 2 ^ 16
    → panel.height < 2 ^ 16
    → length body < 2 ^ 32
    → raw_len < 2 ^ 32
    → next_wake_s < 2 ^ 32
    → crc < 2 ^ 32
    → receive panel
        (header flags panel.width panel.height (length body) raw_len next_wake_s crc ++ body)
      ≡ show panel body
          (header_of flags panel.width panel.height (length body) raw_len next_wake_s crc)
unfolding receive
receive-header panel flags raw_len next_wake_s crc body a b c d e f g =
    rw
      (parse_header-header flags panel.width panel.height (length body) raw_len next_wake_s crc body
        a b c d e f g)
      (rw (le→leb (length body) (length body) (omega arith), take-length body (length body) refl))

body-length-le :
    (packed packbits : List ℕ)
    → length (if not (leb (length packed) (length packbits)) then packbits else packed)
      ≤ length packed
body-length-le packed packbits = ground arith

-- A payload that the device is sent as it was encoded.
receive-with_body :
    (panel : Panel) (packed packbits : List ℕ) (next_wake_s : ℕ) (full : Bool)
    → length packed ≡ panel.raw_len
    → panel.raw_len < 2 ^ 32
    → panel.width < 2 ^ 16
    → panel.height < 2 ^ 16
    → next_wake_s < 2 ^ 32
    → packbits_decode packbits (length packed) ≡ some packed
    → receive panel (with_body packed panel.width panel.height next_wake_s full packbits).bytes
      ≡ some packed
receive-with_body panel packed packbits next_wake_s full e r w h n d =
    receive-header panel (flags_of compressed full) (length packed) next_wake_s
      (checksum_ieee packed) body (flags_of-lt compressed full) w h
      (omega (arith, body-length-le packed packbits)) (omega arith) n (checksum_ieee-lt packed)
    ∙ show-body panel packed packbits compressed full _ e d refl refl refl
  where
    compressed : Bool
    compressed = not (leb (length packed) (length packbits))

    body : List ℕ
    body = if compressed then packbits else packed

-- A framebuffer of the panel's size that the broker encodes for it, compressed or not, is what the
-- device's parser and decoder rebuild, if the panel's width and height fit 16 bits, its size 32 and
-- the next wake 32. Encoding always succeeds.
pub receive-encode :
    (panel : Panel) (packed : List ℕ) (next_wake_s : ℕ) (full : Bool)
    → length packed ≡ panel.raw_len
    → panel.raw_len < 2 ^ 32
    → panel.width < 2 ^ 16
    → panel.height < 2 ^ 16
    → next_wake_s < 2 ^ 32
    → (p : Payload) × (encode packed panel.width panel.height next_wake_s full ≡ some p)
      × (receive panel p.bytes ≡ some packed)
unfolding encode
receive-encode panel packed next_wake_s full e r w h n =
    let (code, packs, unpacks) = packbits_decode-pack_bits packed in
    (
      with_body packed panel.width panel.height next_wake_s full code,
      rw packs,
      receive-with_body panel packed code next_wake_s full e r w h n unpacks,
    )
