-- ===== src/Config/Encodings.antt =====
-- What the validation uses of Go's standard library: base64, trimming and searches in strings.
use re_terminal_eink_signage.Base.{
  ℕ, ◌+◌, ◌-◌, ◌*◌, ◌/◌, ◌%◌, Bool, false, not, ◌&&◌, ◌||◌, Option, none, some, [], ◌∷◌, ltb, leb,
  ◌==◌, if◌then◌else◌, length, drop, keep_if, any, Text,
}

-- `strings.ContainsRune`, on a byte.
abbrev pub contains_byte : ℕ → Text → Bool
contains_byte b s = any (λ c. c == b) s

-- `strings.TrimSpace(s) == ""`, for the white space of ASCII.
unfoldable pub is_blank : Text → Bool
is_blank s = not (any (λ c. not (c == 32 || leb 9 c && leb c 13)) s)

-- `strings.TrimRight(s, "=")`.
unfoldable pub trim_right_pad : Text → Text
trim_right_pad [] = []
trim_right_pad (c ∷ s) = if any (λ d. not (d == 61)) (c ∷ s) then c ∷ trim_right_pad s else []

abbrev pub is_base64url : ℕ → Bool
is_base64url c =
    leb 65 c && leb c 90 || leb 97 c && leb c 122 || leb 48 c && leb c 57 || c == 45 || c == 95

-- The number of bytes that `base64.RawURLEncoding.DecodeString` gives, which skips line ends.
abbrev pub decoded_length : Text → Option ℕ
decoded_length s =
    let digits = keep_if (λ c. not (c == 10 || c == 13)) s in
    if any (λ c. not (is_base64url c)) digits || length digits % 4 == 1
    then none
    else some (length digits * 3 / 4)

-- `b64url`, of which only the length of what is decoded is used.
unfoldable pub b64url : Text → Option ℕ
unfolding trim_right_pad
b64url s = decoded_length (trim_right_pad s)

abbrev pub decodes_to : ℕ → Text → Bool
decodes_to n s = elim (b64url s) [ none ↦ false | some k ↦ k == n ]

-- `strings.LastIndex(s, "@")` where it is found, counted from `i`.
unfoldable pub last_at : ℕ → Text → Option ℕ
last_at i [] = none
last_at i (c ∷ s) =
    let later = last_at (i + 1) s in
    elim later [ some j ↦ some j | none ↦ (if c == 64 then some i else none) ]

-- `validEmail`.
unfoldable pub valid_email : Text → Bool
unfolding last_at
valid_email s = elim (last_at 0 s) [
  | none ↦ false
  | some at ↦
      ltb 0 at
      && ltb at (length s - 1)
      && not (any (λ c. c == 32 || c == 9 || c == 60 || c == 62) s)
      && contains_byte 46 (drop at s)
]
