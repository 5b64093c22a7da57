-- ===== src/Render/PackBits/Runs.antt =====
-- What one round of the encoder of packbits.go writes, and how the decoder reads it.
use re_terminal_eink_signage.Base.{
  ℕ, zero, suc, ◌+◌, ◌-◌, ◌≤◌, ◌<◌, ◌≡◌, refl, sym, ap, inl, inr, true, false, ◌&&◌, List, [], ◌∷◌,
  ◌++◌, arith, ltb, leb, ◌==◌, Bool-cases, length, replicate, length-replicate,
}
use native.Mathlib.Nat.{zero-add, suc-add}
use re_terminal_eink_signage.Render.PackBits.{
  count_run, gather_literal, pack_round, copy_literal, repeat_byte, decode_control, literal_control,
  run_control,
}

count_run_lem :
    (v n : ℕ) (rest : List ℕ)
    → n ≤ 128
    → (k : ℕ) × ((count_run v n rest).0 ≡ n + k)
      × (n + k ≤ 128)
      × (rest ≡ replicate k v ++ (count_run v n rest).1)
unfolding count_run
count_run_lem v n [] h = (0, omega arith, omega arith, refl)
count_run_lem v n (b ∷ rest) h = elim (Bool-cases ((b == v) && ltb n 128)) [
  | inl same ↦
      let (k, e, le, split) = count_run_lem v (n + 1) rest (ground arith) in
      rw same (suc k, omega arith, omega arith, ground arith)
  | inr other ↦ rw other (0, omega arith, omega arith, refl)
]

gather_literal_lem :
    (n : ℕ) (xs : List ℕ)
    → n ≤ 128
    → ((gather_literal n xs).0 ++ (gather_literal n xs).1 ≡ xs)
      × (n + length (gather_literal n xs).0 ≤ 128)
unfolding gather_literal
gather_literal_lem n [] h = (refl, omega arith)
gather_literal_lem n (b ∷ rest) h = ground (arith, gather_literal_lem (n + 1) rest)

pair_differs :
    (b c : ℕ) (rest : List ℕ) → ltb (count_run b 1 (c ∷ rest)).0 2 ≡ true → (b == c) ≡ false
unfolding count_run
pair_differs b c rest h = ground (arith, count_run_lem b 2 rest)

gather_pair :
    (b c : ℕ) (rest : List ℕ) → (b == c) ≡ false → 0 < length (gather_literal 0 (b ∷ c ∷ rest)).0
unfolding gather_literal
gather_pair b c [] h = omega arith
gather_pair b c (d ∷ rest) h = ground arith

-- A byte that begins no run of two is gathered.
gather_literal-pos :
    (b : ℕ) (rest : List ℕ)
    → ltb (count_run b 1 rest).0 2 ≡ true
    → 0 < length (gather_literal 0 (b ∷ rest)).0
unfolding gather_literal count_run
gather_literal-pos b [] h = omega arith
gather_literal-pos b (c ∷ rest) h = gather_pair b c rest (pair_differs b c rest h)

copy_literal_lem :
    (xs comp : List ℕ) (m : ℕ)
    → copy_literal (length xs) (xs ++ comp) (length xs + m) ≡ (xs, comp, m)
unfolding copy_literal
copy_literal_lem [] comp m = rw zero-add
copy_literal_lem (x ∷ xs) comp m = rw suc-add (rw (copy_literal_lem xs comp m))

repeat_byte_lem : (k v m : ℕ) → repeat_byte k v (k + m) ≡ (replicate k v, m)
unfolding repeat_byte
repeat_byte_lem zero v m = rw zero-add
repeat_byte_lem (suc k) v m = rw suc-add (rw (repeat_byte_lem k v m))

-- What one round writes, and that the decoder undoes it, whatever follows.
pub record Undone (src : List ℕ) (round : List ℕ × List ℕ) : Type 0 where
  pub ctrl : ℕ
  pub body : List ℕ
  pub chunk : List ℕ
  pub writes : round.0 ≡ ctrl ∷ body
  pub consumes : src ≡ chunk ++ round.1
  pub advances : 0 < length chunk
  pub decodes :
      (comp : List ℕ) (m : ℕ)
      → decode_control ctrl (body ++ comp) (length chunk + m) ≡ (chunk, comp, m)

control_counts : (k : ℕ) → 2 ≤ k → k ≤ 128 → 257 - run_control k ≡ k
control_counts k lo hi = omega arith

literal_counts : (k : ℕ) → 0 < k → k ≤ 128 → literal_control k + 1 ≡ k
literal_counts k lo hi = omega arith

run_decodes :
    (k b : ℕ) (comp : List ℕ) (m : ℕ)
    → 2 ≤ k
    → k ≤ 128
    → decode_control (run_control k) (b ∷ comp) (k + m) ≡ (replicate k b, comp, m)
unfolding decode_control
run_decodes k b comp m lo hi =
    ground (
      arith,
      ap (λ (j : ℕ). repeat_byte j b (k + m)) (control_counts k lo hi),
      repeat_byte_lem k b m,
    )

literal_decodes :
    (xs comp : List ℕ) (m : ℕ)
    → 0 < length xs
    → length xs ≤ 128
    → decode_control (literal_control (length xs)) (xs ++ comp) (length xs + m) ≡ (xs, comp, m)
unfolding decode_control
literal_decodes xs comp m lo hi = ground (
  arith,
  ap (λ (j : ℕ). copy_literal j (xs ++ comp) (length xs + m)) (literal_counts (length xs) lo hi),
  copy_literal_lem xs comp m,
)

round_run :
    (b : ℕ) (rest : List ℕ)
    → leb 2 (count_run b 1 rest).0 ≡ true
    → (k : ℕ) × ((count_run b 1 rest).0 ≡ 1 + k)
      × (1 + k ≤ 128)
      × (rest ≡ replicate k b ++ (count_run b 1 rest).1)
    → Undone (b ∷ rest) (pack_round b rest)
unfolding pack_round
round_run b rest run (k, e, hi, split) =
    rw (run, pack_round)
      (record {
        ctrl = run_control (count_run b 1 rest).0;
        body = b ∷ [];
        chunk = replicate (suc k) b;
        writes = refl;
        consumes = ap (λ t. b ∷ t) split;
        advances = omega arith;
        decodes = λ comp m. ground (
          arith,
          run_decodes (suc k) b comp m (ground arith) (omega arith),
          length-replicate k b,
        );
      })

pub round-Undone : (b : ℕ) (rest : List ℕ) → Undone (b ∷ rest) (pack_round b rest)
unfolding pack_round
round-Undone b rest = elim (Bool-cases (leb 2 (count_run b 1 rest).0)) [
  | inl run ↦ round_run b rest run (count_run_lem b 1 rest (omega arith))
  | inr literal ↦
      rw (literal, pack_round)
        (record {
          ctrl = literal_control (length (gather_literal 0 (b ∷ rest)).0);
          body = (gather_literal 0 (b ∷ rest)).0;
          chunk = (gather_literal 0 (b ∷ rest)).0;
          writes = refl;
          consumes = sym (gather_literal_lem 0 (b ∷ rest) (omega arith)).0;
          advances = gather_literal-pos b rest (ground arith);
          decodes = λ comp m.
              literal_decodes _ comp m (gather_literal-pos b rest (ground arith))
                (omega (arith, gather_literal_lem 0 (b ∷ rest) (omega arith)));
        })
]
