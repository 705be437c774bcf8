-- ===== src/Decoder/Decode.antt =====
-- Function::Decode of src/lldecoder.cc as a whole, with its error code.
use mathlib.Core.Path.{subst}
use rellume.Prelude.{
  ℕ, zero, suc, ◌+◌, ◌-◌, ◌*◌, ◌^◌, ◌<◌, ◌≤◌, ◌≡◌, Bool, true, false, Option, some, List, [], ◌∷◌,
  length, get_elem?, get_elem?_of_lt, refl, arith, ◌⊎◌, if◌then◌else◌, Bool-cases, List-cases, inl,
  inr, ◌>>=◌,
}
use rellume.Instr.{Instr}
use rellume.Decoder.{DecodeStop, Range, DecodeState, decode_loop}
use rellume.Decoder.Lifting.{
  Lifted, failed, went_on, lift_insts, lift_blocks, decode, error_code, initial,
}
use rellume.Decoder.Shape.{WellFormed}
use rellume.Decoder.Total.{decode_loop_correct}

module _ {S : Type 0} (add_inst : ℕ → Instr → S → Bool × S) where
  -- Behind the first instruction the loops never report an error.
  more_insts :
      (insts : List Instr) (a j n : ℕ) (s : S)
      → j + n ≤ length insts
      → (s' : S) × (lift_insts add_inst insts a j n false s ≡ some (went_on false s'))
  unfolding lift_insts
  more_insts insts a j zero s le = (s, refl)
  more_insts insts a j (suc n) s le =
      let (inst, e) = get_elem?_of_lt insts j (omega arith) in
      elim (Bool-cases (add_inst a inst s).0) [
        | inl f ↦
            let (s', g) = more_insts insts a (suc j) n (add_inst a inst s).1 (omega arith) in
            (s', rw (e, lift_insts, ◌>>=◌, f) g)
        | inr f ↦ ((add_inst a inst s).1, rw (e, lift_insts, ◌>>=◌, f) refl)
      ]

  more_blocks :
      (insts : List Instr) (blocks : List Range) (s : S)
      → WellFormed (length insts) blocks
      → (s' : S) × (lift_blocks add_inst insts blocks false s ≡ some (went_on false s'))
  unfolding lift_blocks
  more_blocks insts [] s w = (s, refl)
  more_blocks insts (r ∷ rest) s (h, k, w) =
      let (begin, e) = get_elem?_of_lt insts r.first (omega arith) in
      let (s1, f) = more_insts insts begin.address r.first (r.last - r.first) s (omega arith) in
      let (s2, g) = more_blocks insts rest s1 w in (s2, rw (e, f, lift_blocks, ◌>>=◌) g)

  -- What the lifting of the blocks ends with: the error 1 if there is no block or the first
  -- instruction of the first one is refused, and 0 otherwise.
  abbrev pub Outcome : DecodeState → S → ℕ → Type 0
  Outcome st s code =
      ((st.blocks ≡ []) × (code ≡ 1))
      ⊎ ((r : Range) × (inst : Instr) × (rest : List Range) × (st.blocks ≡ r ∷ rest)
          × (get_elem? st.insts r.first ≡ some inst)
          × (code ≡ (if (add_inst inst.address inst s).0 then 0 else 1)))

  accepted :
      (insts : List Instr) (r : Range) (rest : List Range) (inst : Instr) (n : ℕ) (s s1 s2 : S)
      → get_elem? insts r.first ≡ some inst
      → r.last - r.first ≡ suc n
      → (add_inst inst.address inst s).0 ≡ true
      → lift_insts add_inst insts inst.address
          (suc r.first)
          n
          false
          (add_inst inst.address inst s).1
        ≡ some (went_on false s1)
      → lift_blocks add_inst insts rest false s1 ≡ some (went_on false s2)
      → lift_blocks add_inst insts (r ∷ rest) true s ≡ some (went_on false s2)
  unfolding lift_blocks lift_insts
  accepted insts r rest inst n s s1 s2 e size f g q = rw (e, size, ◌>>=◌, e, f, g) q

  refused :
      (insts : List Instr) (r : Range) (rest : List Range) (inst : Instr) (n : ℕ) (s : S)
      → get_elem? insts r.first ≡ some inst
      → r.last - r.first ≡ suc n
      → (add_inst inst.address inst s).0 ≡ false
      → lift_blocks add_inst insts (r ∷ rest) true s
        ≡ some (failed (add_inst inst.address inst s).1)
  unfolding lift_blocks lift_insts
  refused insts r rest inst n s e size f = rw (e, size, ◌>>=◌, e, f) refl

  first_block :
      (insts : List Instr) (r : Range) (rest : List Range) (s : S)
      → WellFormed (length insts) (r ∷ rest)
      → (inst : Instr) × (get_elem? insts r.first ≡ some inst)
        × (res : Lifted S) × (lift_blocks add_inst insts (r ∷ rest) true s ≡ some res)
        × ((error_code add_inst res).0 ≡ (if (add_inst inst.address inst s).0 then 0 else 1))
  first_block insts r rest s (h, k, w) =
      let (inst, e) = get_elem?_of_lt insts r.first (omega arith) in
      let n = r.last - r.first - 1 in
      let size : r.last - r.first ≡ suc n = omega arith in
      elim (Bool-cases (add_inst inst.address inst s).0) [
        | inl f ↦
            let (s1, g) =
              more_insts insts inst.address (suc r.first) n (add_inst inst.address inst s).1
                (omega arith) in
            let (s2, q) = more_blocks insts rest s1 w in
            (
              inst,
              e,
              went_on false s2,
              accepted insts r rest inst n s s1 s2 e size f g q,
              rw f refl,
            )
        | inr f ↦ (
          inst,
          e,
          failed (add_inst inst.address inst s).1,
          refused insts r rest inst n s e size f,
          rw f refl,
        )
      ]

  lifting_lem :
      (st : DecodeState) (s : S)
      → WellFormed (length st.insts) st.blocks
      → (res : Lifted S) × (lift_blocks add_inst st.insts st.blocks true s ≡ some res)
        × Outcome st s (error_code add_inst res).0
  unfolding lift_blocks
  lifting_lem st s w = elim (List-cases st.blocks) [
    | inl e ↦ (went_on true s, rw e refl, inl (e, refl))
    | inr (r, rest, e) ↦
        let (inst, f, res, g, h) =
          first_block st.insts r rest s (subst (λ xs. WellFormed (length st.insts) xs) e w) in
        (res, rw e g, inr (r, inst, rest, e, f, h))
  ]

module _ {S : Type 0} (add_inst : ℕ → Instr → S → Bool × S) (memacc : ℕ → ℕ × List ℕ)
    (fd_decode : List ℕ → ℕ → Option Instr) (call_function : Bool) (stop : DecodeStop) where
  -- From any start address of 64 bits, whatever the memory holds and whatever AddInst answers, Decode
  -- with 3 * 2 ^ 64 + 2 turns or more of its outer loop and 2 ^ 64 + 1 or more of the inner one ends
  -- without an access out of bounds. It returns 1 if no block was found or AddInst refuses the first
  -- instruction of the first block, and 0 otherwise, also if a later instruction is refused.
  pub decode_correct :
      (outer inner addr : ℕ) (s : S)
      → addr < 2 ^ 64
      → 3 * 2 ^ 64 + 1 < outer
      → 2 ^ 64 < inner
      → (st : DecodeState) × (code : ℕ) × (s' : S) × (decode_loop memacc fd_decode call_function
            stop outer inner
            (initial addr)
          ≡ some st)
        × (decode add_inst memacc fd_decode call_function stop outer inner addr s ≡ some (code, s'))
        × Outcome add_inst st s code
  unfolding decode
  decode_correct outer inner addr s h o i =
      let d = decode_loop_correct memacc fd_decode call_function stop outer inner addr h o i in
      let (res, e, out) = lifting_lem add_inst d.after s d.shaped in
      (
        d.after,
        (error_code add_inst res).0,
        (error_code add_inst res).1,
        d.returns,
        rw (d.returns, e, decode, ◌>>=◌) refl,
        out,
      )
