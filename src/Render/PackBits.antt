-- ===== src/Render/PackBits.antt =====
-- backend/internal/render/packbits.go, and the decoder of firmware/main/protocol.hpp that must
-- undo it. The rest of a slice is the list of its bytes; a loop's fuel running out is `none`.
pub mod Runs
pub mod RoundTrip
use re_terminal_eink_signage.Base.{
  ℕ, zero, suc, ◌+◌, ◌-◌, ◌%◌, Bool, false, ◌&&◌, Option, none, some, List, [], ◌∷◌, ◌++◌, ltb, leb,
  ◌==◌, if◌then◌else◌, length,
}

-- `for i+runLen < n && src[i+runLen] == runVal && runLen < 128 { runLen++ }`, on the bytes from
-- `i+runLen` on: the run's length, and what follows it.
count_run : ℕ → ℕ → List ℕ → ℕ × List ℕ
count_run run_val run_len [] = (run_len, [])
count_run run_val run_len (b ∷ rest) =
    let more = count_run run_val (run_len + 1) rest in
    if (b == run_val) && ltb run_len 128 then more else (run_len, b ∷ rest)

-- `i+2 < n && src[i] == src[i+1] && src[i+1] == src[i+2]`, on the bytes from `i` on.
replicate_begins : List ℕ → Bool
replicate_begins (a ∷ b ∷ c ∷ rest) = (a == b) && (b == c)
replicate_begins _ = false

-- The literal loop: the bytes that it gathers after `lit_len` others, and what follows them.
gather_literal : ℕ → List ℕ → List ℕ × List ℕ
unfolding replicate_begins
gather_literal lit_len [] = ([], [])
gather_literal lit_len (b ∷ rest) =
    let more = gather_literal (lit_len + 1) rest in
    if ltb lit_len 128
    then (if replicate_begins (b ∷ rest) then ([], b ∷ rest) else (b ∷ more.0, more.1))
    else ([], b ∷ rest)

-- `byte(litLen-1)` and `byte(257-runLen)`, which wrap.
abbrev literal_control : ℕ → ℕ
literal_control lit_len = (lit_len + 255) % 256

abbrev run_control : ℕ → ℕ
run_control run_len = (257 - run_len) % 256

-- One round of the outer loop on the bytes from `i` on: what it appends to `out`, and the bytes
-- from the new `i` on.
pub pack_round : ℕ → List ℕ → List ℕ × List ℕ
unfolding count_run gather_literal
pack_round b rest =
    let run = count_run b 1 rest in
    let lit = gather_literal 0 (b ∷ rest) in
    if leb 2 run.0
    then (run_control run.0 ∷ b ∷ [], run.1)
    else (literal_control (length lit.0) ∷ lit.0, lit.1)

pack_loop : ℕ → List ℕ → List ℕ → Option (List ℕ)
pack_loop fuel [] out = some out
pack_loop zero (b ∷ rest) out = none
pack_loop (suc fuel) (b ∷ rest) out =
    let round = pack_round b rest in pack_loop fuel round.1 (out ++ round.0)

-- `PackBits`: a round consumes a byte at least, so the source's length is enough fuel.
unfoldable pub pack_bits : List ℕ → Option (List ℕ)
unfolding pack_loop pack_round
pack_bits src = pack_loop (length src) src []

-- The two inner loops of `packbits_decode`: the bytes sent to the sink, what is left of the
-- compressed bytes, and how many bytes the sink may still take.
copy_literal : ℕ → List ℕ → ℕ → List ℕ × List ℕ × ℕ
copy_literal zero comp left = ([], comp, left)
copy_literal (suc k) [] left = ([], [], left)
copy_literal (suc k) (b ∷ comp) zero = ([], b ∷ comp, zero)
copy_literal (suc k) (b ∷ comp) (suc left) =
    let (sent, comp', left') = copy_literal k comp left in (b ∷ sent, comp', left')

repeat_byte : ℕ → ℕ → ℕ → List ℕ × ℕ
repeat_byte zero v left = ([], left)
repeat_byte (suc k) v zero = ([], zero)
repeat_byte (suc k) v (suc left) = let (sent, left') = repeat_byte k v left in (v ∷ sent, left')

replicate_next : ℕ → List ℕ → ℕ → List ℕ × List ℕ × ℕ
unfolding repeat_byte
replicate_next ctrl [] left = ([], [], left)
replicate_next ctrl (v ∷ comp) left =
    let (sent, left') = repeat_byte (257 - ctrl) v left in (sent, comp, left')

-- One control byte: `int8_t` reads 128 as -128, and `c` above it as `c - 256`.
pub decode_control : ℕ → List ℕ → ℕ → List ℕ × List ℕ × ℕ
unfolding copy_literal replicate_next
decode_control ctrl comp left =
    if ltb ctrl 128
    then copy_literal (ctrl + 1) comp left
    else (if ctrl == 128 then ([], comp, left) else replicate_next ctrl comp left)

-- `packbits_decode`, with the bytes that the sink has received.
decode_loop : ℕ → List ℕ → ℕ → List ℕ → Option (List ℕ)
decode_loop fuel [] left out = some out
decode_loop fuel (c ∷ comp) zero out = some out
decode_loop zero (c ∷ comp) (suc left) out = none
decode_loop (suc fuel) (c ∷ comp) (suc left) out =
    let (sent, comp', left') = decode_control c comp (suc left) in
    decode_loop fuel comp' left' (out ++ sent)

unfoldable pub packbits_decode : List ℕ → ℕ → Option (List ℕ)
unfolding decode_loop decode_control
packbits_decode comp raw_len = decode_loop (length comp) comp raw_len []
