-- ===== src/Render/PackBits/RoundTrip.antt =====
-- The encoder of packbits.go and the decoder of protocol.hpp, one after the other.
use re_terminal_eink_signage.Base.{
  ℕ, zero, suc, ◌+◌, ◌≤◌, ◌≡◌, refl, sym, ap, ◌∙◌, Option, some, List, [], ◌∷◌, ◌++◌, arith, length,
  length-append,
}
use mathlib.Core.List.{append_assoc, append-nil}
use re_terminal_eink_signage.Render.PackBits.{
  pack_round, pack_loop, pack_bits, decode_control, decode_loop, packbits_decode,
}
use re_terminal_eink_signage.Render.PackBits.Runs.{Undone, round-Undone}

-- What the encoder's loop appends to `out`, and that the decoder turns it into the source.
record Packed (src : List ℕ) (out : List ℕ) (result : Option (List ℕ)) : Type 0 where
  code : List ℕ
  returns : result ≡ some (out ++ code)
  decodes :
      (fuel : ℕ) (sent : List ℕ)
      → length code ≤ fuel
      → decode_loop fuel code (length src) sent ≡ some (sent ++ src)

decode_loop-nil : (fuel left : ℕ) (sent : List ℕ) → decode_loop fuel [] left sent ≡ some sent
unfolding decode_loop
decode_loop-nil zero left sent = refl
decode_loop-nil (suc fuel) left sent = refl

decode_loop-chunk :
    (fuel left : ℕ) (ctrl : ℕ) (comp sent chunk rest : List ℕ) (m : ℕ)
    → decode_control ctrl comp (suc left) ≡ (chunk, rest, m)
    → decode_loop (suc fuel) (ctrl ∷ comp) (suc left) sent ≡ decode_loop fuel rest m (sent ++ chunk)
unfolding decode_loop
decode_loop-chunk fuel left ctrl comp sent chunk rest m e =
    ap (λ (t : List ℕ × List ℕ × ℕ). decode_loop fuel t.1 t.2 (sent ++ t.0)) e

round-decodes :
    (b : ℕ) (rest out : List ℕ) (result : Option (List ℕ))
    (u : Undone (b ∷ rest) (pack_round b rest))
    (p : Packed (pack_round b rest).1 (out ++ (pack_round b rest).0) result) (fuel : ℕ)
    (sent : List ℕ)
    → suc (length (u.body ++ p.code)) ≤ fuel
    → decode_loop fuel (u.ctrl ∷ (u.body ++ p.code)) (suc (length rest)) sent
      ≡ some (sent ++ b ∷ rest)
round-decodes b rest out result u p zero sent h = absurd (omega arith)
round-decodes b rest out result u p (suc fuel) sent h =
    decode_loop-chunk fuel (length rest) u.ctrl _ sent u.chunk p.code (length after) undone
    ∙ p.decodes fuel (sent ++ u.chunk) (omega (arith, length-append u.body p.code))
    ∙ ap some (append_assoc sent u.chunk after ∙ ap (◌++◌ sent) (sym u.consumes))
  where
    after : List ℕ
    after = (pack_round b rest).1

    total : length u.chunk + length after ≡ suc (length rest)
    total = sym (length-append u.chunk after) ∙ sym (ap length u.consumes)

    undone :
        decode_control u.ctrl (u.body ++ p.code) (suc (length rest))
        ≡ (u.chunk, p.code, length after)
    undone = rw total at (u.decodes p.code (length after))

-- One round, with the bytes after it packed already.
round-Packed :
    (b : ℕ) (rest out : List ℕ) (result : Option (List ℕ))
    (u : Undone (b ∷ rest) (pack_round b rest))
    → Packed (pack_round b rest).1 (out ++ (pack_round b rest).0) result
    → Packed (b ∷ rest) out result
round-Packed b rest out result u p = record {
  code = u.ctrl ∷ u.body ++ p.code;
  returns =
      p.returns
      ∙ ap some
          (ap (λ t. (out ++ t) ++ p.code) u.writes ∙ append_assoc out (u.ctrl ∷ u.body) p.code);
  decodes = round-decodes b rest out result u p;
}

pack_loop-Packed :
    (fuel : ℕ) (src out : List ℕ) → length src ≤ fuel → Packed src out (pack_loop fuel src out)
unfolding pack_loop
pack_loop-Packed fuel [] out h = record {
  code = [];
  returns = rw append-nil;
  decodes = λ g sent le. rw (decode_loop-nil g 0 sent, append-nil);
}
pack_loop-Packed zero (b ∷ rest) out h = absurd (omega arith)
pack_loop-Packed (suc fuel) (b ∷ rest) out h =
    let u = round-Undone b rest in
    round-Packed b rest out _ u (
      pack_loop-Packed fuel (pack_round b rest).1 _ (
        omega
          (arith, ap length u.consumes, u.advances, length-append u.chunk (pack_round b rest).1)))

-- Every byte string is packed (the loop's fuel is enough), and the firmware's decoder, asked for as
-- many bytes as were packed, gives the string back.
pub packbits_decode-pack_bits :
    (src : List ℕ)
    → (code : List ℕ) × (pack_bits src ≡ some code) × (packbits_decode code (length src) ≡ some src)
unfolding pack_bits packbits_decode
packbits_decode-pack_bits src =
    let p = pack_loop-Packed (length src) src [] (omega arith) in
    (p.code, p.returns, p.decodes (length p.code) [] (omega arith))
