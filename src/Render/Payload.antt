-- ===== src/Render/Payload.antt =====
-- backend/internal/render/payload.go, and `parse_header` of firmware/main/protocol.hpp.
pub mod RoundTrip
use Prim.Native.Nat.{bit_or, bit_and}
use re_terminal_eink_signage.Base.{
  ◌>>=◌, ◌>>◌, ℕ, zero, suc, ◌+◌, ◌*◌, ◌/◌, ◌%◌, ◌^◌, Bool, not, ◌&&◌, Option, none, some, List, [],
  ◌∷◌, ◌++◌, leb, ◌==◌, if◌then◌else◌, guard, length, take, drop, text, text_eq,
}
use re_terminal_eink_signage.Crc.{checksum_ieee}
use re_terminal_eink_signage.Render.PackBits.{pack_bits, packbits_decode}

-- `binary.LittleEndian.PutUint16` and `PutUint32`.
unfoldable pub le16 : ℕ → List ℕ
le16 v = v % 256 ∷ v / 256 % 256 ∷ []

unfoldable pub le32 : ℕ → List ℕ
le32 v = v % 256 ∷ v / 2 ^ 8 % 256 ∷ v / 2 ^ 16 % 256 ∷ v / 2 ^ 24 % 256 ∷ []

abbrev pub mdpf_version : ℕ
mdpf_version = 1

abbrev pub header_size : ℕ
header_size = 32

abbrev pub flag_compressed : ℕ
flag_compressed = 1

abbrev pub flag_full_refr : ℕ
flag_full_refr = 2

abbrev pub mdpf_magic : List ℕ
mdpf_magic = text "MDPF"

pub record Payload : Type 0 where
  pub bytes : List ℕ
  pub crc32 : ℕ
  pub next_wake_s : ℕ
  pub compressed : Bool

abbrev pub flags_of : Bool → Bool → ℕ
flags_of compressed full_refresh =
    let flags = if compressed then flag_compressed else 0 in
    if full_refresh then bit_or flags flag_full_refr else flags

-- The 32 bytes of `buf[0:headerSize]`; bytes 13 to 15 stay 0.
pub header : ℕ → ℕ → ℕ → ℕ → ℕ → ℕ → ℕ → List ℕ
unfolding le16 le32
header flags width height body_len raw_len next_wake_s crc =
    mdpf_magic
    ++ (le16 mdpf_version
        ++ (le16 flags
            ++ (le16 (width % 2 ^ 16)
                ++ (le16 (height % 2 ^ 16)
                    ++ (4
                        ∷ 0
                        ∷ 0
                        ∷ 0
                        ∷ (le32 (body_len % 2 ^ 32)
                            ++ (le32 (raw_len % 2 ^ 32) ++ (le32 next_wake_s ++ le32 crc))))))))

-- `Encode` from the point where the body is compressed; raw if that does not make it shorter.
abbrev pub with_body : List ℕ → ℕ → ℕ → ℕ → Bool → List ℕ → Payload
with_body packed width height next_wake_s full_refresh packbits =
    let compressed = not (leb (length packed) (length packbits)) in
    let body = if compressed then packbits else packed in
    let crc = checksum_ieee packed in
    record {
      bytes =
          header (flags_of compressed full_refresh) width height (length body) (length packed)
            next_wake_s crc
          ++ body;
      crc32 = crc;
      next_wake_s = next_wake_s;
      compressed = compressed;
    }

-- `Encode`; `none` would be the encoder's loop running out of fuel.
unfoldable pub encode : List ℕ → ℕ → ℕ → ℕ → Bool → Option Payload
unfolding header
encode packed width height next_wake_s full_refresh = do
  packbits ← pack_bits packed
  some (with_body packed width height next_wake_s full_refresh packbits)

-- The fields of `mdpf::Header` that are not constant.
pub record Header : Type 0 where
  pub version : ℕ
  pub flags : ℕ
  pub width : ℕ
  pub height : ℕ
  pub bpp : ℕ
  pub payload_len : ℕ
  pub raw_len : ℕ
  pub next_wake_s : ℕ
  pub content_crc32 : ℕ

-- A little-endian number of n bytes, and the bytes behind it.
take_le : ℕ → List ℕ → Option (ℕ × List ℕ)
take_le zero bs = some (0, bs)
take_le (suc n) [] = none
take_le (suc n) (b ∷ bs) = do (high, rest) ← take_le n bs; some (b + 256 * high, rest)

-- `parse_header`, with the bytes behind the header.
pub parse_header : List ℕ → Option (Header × List ℕ)
unfolding take_le
parse_header buf = do
  guard (leb header_size (length buf))
  guard (text_eq (take 4 buf) mdpf_magic)
  (version, r) ← take_le 2 (drop 4 buf)
  (flags, r) ← take_le 2 r
  (width, r) ← take_le 2 r
  (height, r) ← take_le 2 r
  (bpp, r) ← take_le 1 r
  (reserved, r) ← take_le 3 r
  (payload_len, r) ← take_le 4 r
  (raw_len, r) ← take_le 4 r
  (next_wake_s, r) ← take_le 4 r
  (content_crc32, r) ← take_le 4 r
  guard (version == mdpf_version)
  guard (bpp == 4)
  some (
    record {
      version = version;
      flags = flags;
      width = width;
      height = height;
      bpp = bpp;
      payload_len = payload_len;
      raw_len = raw_len;
      next_wake_s = next_wake_s;
      content_crc32 = content_crc32;
    },
    r,
  )

-- `EPD_WIDTH`, `EPD_HEIGHT` and `EPD_RAW_LEN` of firmware/main/config.hpp.
pub record Panel : Type 0 where
  pub width : ℕ
  pub height : ℕ
  pub raw_len : ℕ

-- The part of `epd::show` that fills the framebuffer.
pub show : Panel → List ℕ → Header → Option (List ℕ)
show panel body h = do
  guard (h.width == panel.width && h.height == panel.height)
  fb ←
      if bit_and h.flags flag_compressed == 0
      then some (take panel.raw_len body)
      else packbits_decode body panel.raw_len
  guard (length fb == panel.raw_len)
  some fb

-- A fetched payload up to the framebuffer: the body's length is checked against what was read.
pub receive : Panel → List ℕ → Option (List ℕ)
unfolding parse_header show
receive panel buf = do
  (h, body) ← parse_header buf
  guard (leb h.payload_len (length body))
  show panel (take h.payload_len body) h
