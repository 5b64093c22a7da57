-- ===== src/Server/Forms.antt =====
-- What the handlers of backend/internal/server read of a posted form: `url.Values` of net/http, and
-- the helpers isSHA256Hex, formInt, formUint32 and formDuration of admin.go.
use re_terminal_eink_signage.Base.{
  ℕ, Bool, false, not, ◌&&◌, ◌||◌, none, some, List, [], ◌∷◌, leb, ◌==◌, if◌then◌else◌, length, any,
  Text, lookup,
}

-- A field may be sent several times.
abbrev pub Form : Type 0
Form = List (Text × List Text)

-- `r.PostForm[key]` and `r.PostForm.Get(key)`.
unfoldable pub form_all : Text → Form → List Text
form_all key f = elim (lookup key f) [ none ↦ [] | some vs ↦ vs ]

unfoldable pub form_get : Text → Form → Text
unfolding form_all
form_get key f = elim (form_all key f) [ [] ↦ [] | v ∷ vs ↦ v ]

unfoldable pub is_sha256_hex : Text → Bool
is_sha256_hex s =
    if not (length s == 64)
    then false
    else not (any (λ c. not (leb 48 c && leb c 57) && not (leb 97 c && leb c 102)) s)

-- `strings.TrimSpace`, for the white space of ASCII.
abbrev pub is_space : ℕ → Bool
is_space c = c == 32 || leb 9 c && leb c 13

unfoldable pub trim_left : Text → Text
trim_left [] = []
trim_left (c ∷ s) = if is_space c then trim_left s else c ∷ s

unfoldable pub trim_right : Text → Text
trim_right [] = []
trim_right (c ∷ s) = if any (λ d. not (is_space d)) (c ∷ s) then c ∷ trim_right s else []

unfoldable pub trim_space : Text → Text
unfolding trim_left trim_right
trim_space s = trim_right (trim_left s)

-- The values that are not blank, trimmed.
unfoldable pub trimmed : List Text → List Text
unfolding trim_space
trimmed [] = []
trimmed (v ∷ vs) = elim (trim_space v) [ [] ↦ trimmed vs | c ∷ t ↦ (c ∷ t) ∷ trimmed vs ]
