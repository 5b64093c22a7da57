-- ===== src/Examples/Names.antt =====
-- Names that EqualFold takes for one and ToLower does not: `NIKOS` in Greek capitals, and in small
-- letters with a final sigma.
use re_terminal_eink_signage.Base.{
  ◌≡◌, refl, true, false, [], ◌∷◌, Text, text_eq, lower, fold, equal_fold,
}

abbrev capitals : Text
capitals = 206 ∷ 157 ∷ 206 ∷ 138 ∷ 206 ∷ 154 ∷ 206 ∷ 159 ∷ 206 ∷ 163 ∷ []

abbrev small : Text
small = 206 ∷ 189 ∷ 206 ∷ 175 ∷ 206 ∷ 186 ∷ 206 ∷ 191 ∷ 207 ∷ 130 ∷ []

one_by_fold : equal_fold capitals small ≡ true
unfolding equal_fold fold text_eq
one_by_fold = refl

two_by_lower : text_eq (lower capitals) (lower small) ≡ false
unfolding lower text_eq
two_by_lower = refl
