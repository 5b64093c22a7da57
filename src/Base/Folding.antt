-- ===== src/Base/Folding.antt =====
-- `strings.ToLower` and `strings.EqualFold`, which differ: ToLower keeps a final sigma and the long s,
-- EqualFold takes them for sigma and s. Both fold ASCII, Latin-1, the Greek letters from U+0386 to
-- U+03CE and the Cyrillic ones from U+0400 to U+045F, and the other forms that Unicode folds to
-- these; letters further on are left as they are. A folded text is given by its code points.
use re_terminal_eink_signage.Base.Tests.{
  ℕ, zero, suc, ◌+◌, ◌-◌, ◌*◌, ◌<◌, ◌≡◌, refl, sym, ap, ◌∙◌, Bool, true, not, ◌&&◌, ◌||◌, List, [],
  ◌∷◌, map, arith, ltb, leb, ◌==◌, if◌then◌else◌,
}
use re_terminal_eink_signage.Base.Lists.{All}
use re_terminal_eink_signage.Base.Texts.{Text, text_eq, text_eq_refl, text_eq_iff}

-- The next bytes, or 0, which continues no code point.
abbrev byte_at : ℕ → Text → ℕ
byte_at n [] = 0
byte_at zero (b ∷ s) = b
byte_at (suc n) (b ∷ s) = byte_at n s

abbrev within : ℕ → ℕ → ℕ → Bool
within low high b = leb low b && leb b high

-- `utf8.DecodeRune` beyond ASCII: the code point, and how many more bytes it takes. A byte that begins
-- none is U+FFFD.
unfoldable decode_long : ℕ → ℕ → ℕ → ℕ → ℕ × ℕ
decode_long b x y z =
    if within 194 223 b && within 128 191 x
    then ((b - 192) * 64 + (x - 128), 1)
    else (if within 224 239 b
          && within (if b == 224 then 160 else 128) (if b == 237 then 159 else 191) x
          && within 128 191 y
        then ((b - 224) * 4096 + (x - 128) * 64 + (y - 128), 2)
        else (if within 240 244 b
              && within (if b == 240 then 144 else 128) (if b == 244 then 143 else 191) x
              && within 128 191 y
              && within 128 191 z
            then ((b - 240) * 262144 + (x - 128) * 4096 + (y - 128) * 64 + (z - 128), 3)
            else (65533, 0)))

abbrev decode_rune : ℕ → Text → ℕ × ℕ
decode_rune b s =
    if ltb b 128 then (b, 0) else decode_long b (byte_at 0 s) (byte_at 1 s) (byte_at 2 s)

-- The code points of what comes after a number of bytes that are taken already.
unfoldable runes_after : ℕ → Text → List ℕ
unfolding decode_long
runes_after n [] = []
runes_after (suc n) (b ∷ s) = runes_after n s
runes_after zero (b ∷ s) = let rune = decode_rune b s in rune.0 ∷ runes_after rune.1 s

-- `unicode.ToLower`.
unfoldable lower_long : ℕ → ℕ
lower_long c =
    if within 192 222 c && not (c == 215)
      || within 913 939 c && not (c == 930)
      || within 1040 1071 c
    then c + 32
    else (if within 1024 1039 c
        then c + 80
        else (if within 904 906 c
            then c + 37
            else (if c == 902
                then 940
                else (if c == 908
                    then 972
                    else (if c == 910 || c == 911
                        then c + 63
                        else (if c == 304
                            then 105
                            else (if c == 376
                                then 255
                                else (if c == 1012
                                    then 952
                                    else (if c == 7838
                                        then 223
                                        else (if c == 8486
                                            then 969
                                            else (if c == 8490
                                                then 107
                                                else (if c == 8491 then 229 else c))))))))))))

unfoldable lower_rune : ℕ → ℕ
unfolding lower_long
lower_rune c = if ltb c 128 then (if within 65 90 c then c + 32 else c) else lower_long c

-- What `unicode.SimpleFold` leads to from a small letter: the letter that stands for all its forms.
unfoldable small_form : ℕ → ℕ
small_form c =
    if c == 181
    then 956
    else (if c == 383
        then 115
        else (if c == 837 || c == 8126
            then 953
            else (if c == 962
                then 963
                else (if c == 976
                    then 946
                    else (if c == 977
                        then 952
                        else (if c == 981
                            then 966
                            else (if c == 982
                                then 960
                                else (if c == 1008
                                    then 954
                                    else (if c == 1009
                                        then 961
                                        else (if c == 1013 then 949 else cyrillic_form c))))))))))
  where
    cyrillic_form : ℕ → ℕ
    cyrillic_form d =
        if d == 7296
        then 1074
        else (if d == 7297
            then 1076
            else (if d == 7298
                then 1086
                else (if d == 7299
                    then 1089
                    else (if d == 7300 || d == 7301
                        then 1090
                        else (if d == 7302 then 1098 else d)))))

-- The dotted capital I is a form of no other letter, though its small letter is i.
unfoldable fold_rune : ℕ → ℕ
fold_rune c =
    let small = lower_rune c in
    if c == 304 then c else (if ltb small 128 then small else small_form small)

unfoldable pub lower : Text → Text
unfolding runes_after lower_rune
lower s = map lower_rune (runes_after 0 s)

unfoldable pub fold : Text → Text
unfolding runes_after fold_rune lower_rune small_form
fold s = map fold_rune (runes_after 0 s)

unfoldable pub equal_fold : Text → Text → Bool
equal_fold s t = text_eq (fold s) (fold t)

pub equal_fold_refl : (s : Text) → equal_fold s s ≡ true
unfolding equal_fold
equal_fold_refl s = text_eq_refl (fold s)

pub equal_fold_sym : (s t : Text) → equal_fold s t ≡ equal_fold t s
unfolding equal_fold
equal_fold_sym s t = ground (arith, text_eq_iff (fold s) (fold t), text_eq_iff (fold t) (fold s))

abbrev pub Ascii : Text → Type 0
Ascii s = All (λ b. b < 128) s

runes-Ascii : (s : Text) → Ascii s → runes_after 0 s ≡ s
unfolding runes_after
runes-Ascii [] a = refl
runes-Ascii (b ∷ s) a =
    let short : ltb b 128 ≡ true = ground (arith, a.0) in
    rw (runes_after, short) (ap (λ t. b ∷ t) (runes-Ascii s a.1))

lower_rune-Ascii : (c : ℕ) → c < 128 → lower_rune c < 128
unfolding lower_rune
lower_rune-Ascii c h = ground (arith, h)

-- A code point whose small letter and whose fold are in ASCII has one for both.
lower_rune-fold_rune : (c : ℕ) → lower_rune c < 128 → fold_rune c < 128 → fold_rune c ≡ lower_rune c
unfolding fold_rune
lower_rune-fold_rune c h k = ground (arith, h, k)

fold_rune-Ascii : (c : ℕ) → c < 128 → fold_rune c ≡ lower_rune c
unfolding fold_rune
fold_rune-Ascii c h = ground (arith, h, lower_rune-Ascii c h)

fold-Ascii : (s : Text) → Ascii s → fold s ≡ lower s
unfolding fold lower
fold-Ascii s a = rw (runes-Ascii s a) (each s a)
  where
    each : (t : Text) → Ascii t → map fold_rune t ≡ map lower_rune t
    each [] h = refl
    each (c ∷ t) h = cc (fold_rune-Ascii c h.0, each t h.1)

same_runes :
    (rs : List ℕ) (a b : Text)
    → Ascii a
    → Ascii b
    → map lower_rune rs ≡ map lower_rune a
    → map fold_rune rs ≡ map fold_rune b
    → map lower_rune a ≡ map lower_rune b
same_runes [] [] [] ha hb h k = refl
same_runes [] [] (y ∷ b) ha hb h k = cc
same_runes [] (x ∷ a) b ha hb h k = cc
same_runes (r ∷ rs) [] b ha hb h k = cc
same_runes (r ∷ rs) (x ∷ a) [] ha hb h k = cc
same_runes (r ∷ rs) (x ∷ a) (y ∷ b) ha hb h k =
    let head : lower_rune r ≡ lower_rune x = cc in
    let head' : fold_rune r ≡ fold_rune y = cc in
    let rest : map lower_rune rs ≡ map lower_rune a = cc in
    let rest' : map fold_rune rs ≡ map fold_rune b = cc in
    let as_y = head' ∙ fold_rune-Ascii y hb.0 in
    let same =
      lower_rune-fold_rune r (rw head (lower_rune-Ascii x ha.0))
        (rw as_y (lower_rune-Ascii y hb.0)) in
    let first : lower_rune x ≡ lower_rune y = sym head ∙ sym same ∙ as_y in
    cc (first, same_runes rs a b ha.1 hb.1 rest rest')

-- Two names in ASCII, of which a text has the small letters of one and folds to the other, have the
-- same small letters.
pub lower-fold :
    (s a b : Text) → Ascii a → Ascii b → lower s ≡ lower a → fold s ≡ fold b → lower a ≡ lower b
unfolding fold lower
lower-fold s a b ha hb h k =
    let same : map lower_rune (runes_after 0 s) ≡ map lower_rune a = rw (runes-Ascii a ha) at h in
    let folds : map fold_rune (runes_after 0 s) ≡ map fold_rune b = rw (runes-Ascii b hb) at k in
    rw (runes-Ascii a ha, runes-Ascii b hb) (same_runes (runes_after 0 s) a b ha hb same folds)

-- In ASCII the two say the same.
pub fold-lower : (a b : Text) → Ascii a → Ascii b → fold a ≡ fold b → lower a ≡ lower b
fold-lower a b ha hb h = lower-fold a a b ha hb refl h
