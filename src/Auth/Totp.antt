-- ===== src/Auth/Totp.antt =====
-- backend/internal/auth/totp.go: the codes of RFC 6238. HMAC-SHA1, whose sums have 20 bytes, and the
-- base32 decoder are parameters. A time counts the nanoseconds since 1970.
use re_terminal_eink_signage.Base.{
  ℕ, zero, suc, ◌+◌, ◌-◌, ◌*◌, ◌/◌, ◌%◌, ◌^◌, Bool, true, false, ◌&&◌, Option, none, some, List, [],
  ◌∷◌, ◌++◌, map, leb, if◌then◌else◌, take, drop, Text, text_eq,
}
use re_terminal_eink_signage.Calendar.{second}

abbrev pub totp_step : ℕ
totp_step = 30 * second

unfoldable pub upper : Text → Text
upper = map (λ c. if leb 97 c && leb c 122 then c - 32 else c)

-- The lowest `digits` digits of n to a base, the highest first.
unfoldable pub digits_of : ℕ → ℕ → ℕ → List ℕ
digits_of base zero n = []
digits_of base (suc digits) n = digits_of base digits (n / base) ++ n % base ∷ []

-- A big-endian number.
unfoldable pub big_endian : List ℕ → ℕ → ℕ
big_endian [] n = n
big_endian (b ∷ bs) n = big_endian bs (n * 256 + b)

abbrev pub last_byte : List ℕ → ℕ
last_byte [] = 0
last_byte (b ∷ []) = b
last_byte (b ∷ c ∷ bs) = last_byte (c ∷ bs)

module _ (decode_base32 : Text → Option (List ℕ)) (hmac_sha1 : List ℕ → List ℕ → List ℕ) where
  -- `TOTPCode`; `none` is its error.
  unfoldable pub totp_code : Text → ℕ → Option Text
  totp_code secret t = elim (decode_base32 (upper secret)) [
    | none ↦ none
    | some key ↦
        let sum = hmac_sha1 key (digits_of 256 8 (t / second / 30)) in
        let offset = last_byte sum % 16 in
        let code = big_endian (take 4 (drop offset sum)) 0 % 2 ^ 31 % 1000000 in
        some (map (λ d. 48 + d) (digits_of 10 6 code))
  ]

  -- The loop of `VerifyTOTP` over the times to try.
  unfoldable pub any_code : Text → Text → List ℕ → Bool
  any_code secret code [] = false
  any_code secret code (t ∷ ts) = elim (totp_code secret t) [
    | none ↦ false
    | some want ↦ (if text_eq want code then true else any_code secret code ts)
  ]

  unfoldable pub verify_totp : Text → Text → ℕ → Bool
  verify_totp secret code now =
      any_code secret code (now ∷ (now - totp_step) ∷ (now + totp_step) ∷ [])
