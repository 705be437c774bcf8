-- ===== src/Lifter/Sse/WordShuffle.antt =====
-- LiftSsePshufw of src/lifter-sse.cc, PSHUFLW and PSHUFHW, on every pattern of an immediate, which
-- has 64 bits.
use rellume.Prelude.{
  ℕ, ◌+◌, ◌*◌, ◌/◌, ◌%◌, ◌^◌, ◌≤◌, ◌<◌, ◌≡◌, ltb, leb, if◌then◌else◌, ◌&&◌, some, refl, arith, zero,
  suc,
}
use rellume.Facet.{Facet}
use rellume.Instr.{Instr, op, imm?}
use rellume.Ir.{Builder, vector, IrType}
use rellume.Ir.Meaning.{Meaning}
use rellume.Ir.Meaning.Vector.{VectorMeaning}
use rellume.Lifter.Monad.{LiftState, Config, ◌>>=◌}
use rellume.Lifter.Operand.{align_max}
use rellume.Lifter.Vector.{store_vec, op_load_aligned}
use rellume.Lifter.Sse.Masks.{pshufw_mask, selector}
use rellume.Lifter.Sse.Shuffle.{lift_sse_pshufw}
use rellume.Lifter.Sse.ShuffleLaws.{masked_left}

-- The position that LiftSsePshufw writes in its mask.
abbrev word_at : ℕ → ℕ → ℕ → ℕ
word_at imm off i = if leb off i && ltb i (off + 4) then off + selector imm i else i

-- The low four selectors are bits of the lowest byte.
low_selector : (imm i : ℕ) → i < 4 → selector imm i ≡ imm % 2 ^ 8 / 2 ^ (2 * i) % 4
low_selector imm zero lt = omega arith
low_selector imm (suc zero) lt = omega arith
low_selector imm (suc (suc zero)) lt = omega arith
low_selector imm (suc (suc (suc zero))) lt = omega arith
low_selector imm (suc (suc (suc (suc i)))) lt = absurd (omega arith)

-- The next four are all zeros or all ones if the immediate is a byte with its sign.
abbrev copies : ℕ → ℕ
copies imm = if ltb imm (2 ^ 63) then 0 else 3

high_selector :
    (imm i : ℕ)
    → imm < 2 ^ 64
    → (imm + 2 ^ 7) % 2 ^ 64 < 2 ^ 8
    → 4 ≤ i
    → i < 8
    → selector imm i ≡ copies imm
high_selector imm zero fits byte ge lt = absurd (omega arith)
high_selector imm (suc zero) fits byte ge lt = absurd (omega arith)
high_selector imm (suc (suc zero)) fits byte ge lt = absurd (omega arith)
high_selector imm (suc (suc (suc zero))) fits byte ge lt = absurd (omega arith)
high_selector imm (suc (suc (suc (suc zero)))) fits byte ge lt = ground arith
high_selector imm (suc (suc (suc (suc (suc zero))))) fits byte ge lt = ground arith
high_selector imm (suc (suc (suc (suc (suc (suc zero)))))) fits byte ge lt = ground arith
high_selector imm (suc (suc (suc (suc (suc (suc (suc zero))))))) fits byte ge lt = ground arith
high_selector imm (suc (suc (suc (suc (suc (suc (suc (suc i)))))))) fits byte ge lt =
    absurd (omega arith)

low_word : (imm i : ℕ) → word_at imm 0 i ≡ (if ltb i 4 then imm % 2 ^ 8 / 2 ^ (2 * i) % 4 else i)
low_word imm i = ground (arith, low_selector imm i)

high_word :
    (imm i : ℕ)
    → imm < 2 ^ 64
    → (imm + 2 ^ 7) % 2 ^ 64 < 2 ^ 8
    → i < 8
    → word_at imm 4 i ≡ (if ltb i 4 then i else if ltb imm (2 ^ 63) then 4 else 7)
high_word imm i fits byte lt = ground (arith, high_selector imm i fits byte)

module _ {V : Type 0} (b : Builder V) (m : Meaning b) (vm : VectorMeaning b m)
    (cfg : Config V) where
  open b use {ty, shuffle}
  open vm use {lane}

  shuffled_word :
      (x : V) (t : IrType) (imm off i k : ℕ)
      → ty x ≡ vector t 8
      → i < 8
      → word_at imm off i ≡ k
      → k < 8
      → lane (shuffle x x (pshufw_mask imm off)) i ≡ lane x k
  unfolding pshufw_mask
  shuffled_word x t imm off i k tx lt e small =
      masked_left b m vm x x (word_at imm off) t 8 8 i k tx tx lt e small

  handler_lem :
      (inst : Instr) (off : ℕ) (s s1 : LiftState V) (x : V) (imm : ℕ)
      → imm? (op inst 2) ≡ some imm
      → op_load_aligned b cfg (op inst 1) Facet.vi16 align_max s ≡ some (x, s1)
      → lift_sse_pshufw b cfg inst off s
        ≡ store_vec b cfg (op inst 0) (shuffle x x (pshufw_mask imm off)) s1
  unfolding lift_sse_pshufw
  handler_lem inst off s s1 x imm e0 e1 = rw (e0, e1, ◌>>=◌) refl

  -- For a builder that obeys the laws of LLVM's shuffles, LiftSsePshufw with offset 0 (PSHUFLW) of an
  -- operand that loads as a vector of 8 elements stores a vector whose low four elements are the
  -- low elements of the operand that the four pairs of bits in the lowest byte of the immediate
  -- select, and whose high four elements are the operand's.
  pub lift_sse_pshuflw_correct :
      (inst : Instr) (s s1 : LiftState V) (x : V) (t : IrType) (imm : ℕ)
      → imm? (op inst 2) ≡ some imm
      → op_load_aligned b cfg (op inst 1) Facet.vi16 align_max s ≡ some (x, s1)
      → ty x ≡ vector t 8
      → (v : V) × (lift_sse_pshufw b cfg inst 0 s ≡ store_vec b cfg (op inst 0) v s1)
        × ((i : ℕ)
            → i < 8
            → lane v i ≡ lane x (if ltb i 4 then imm % 2 ^ 8 / 2 ^ (2 * i) % 4 else i))
  lift_sse_pshuflw_correct inst s s1 x t imm e0 e1 tx = (
    shuffle x x (pshufw_mask imm 0),
    handler_lem inst 0 s s1 x imm e0 e1,
    λ i lt. shuffled_word x t imm 0 i _ tx lt (low_word imm i) (ground arith),
  )

  -- For a builder that obeys the laws of LLVM's shuffles, and an immediate of 64 bits that is a
  -- byte extended by its sign: LiftSsePshufw with offset 4 (PSHUFHW) of an operand that loads as a
  -- vector of 8 elements stores a vector whose low four elements are the operand's, but whose high
  -- four elements are all the element 4 of the operand if the immediate is positive or zero, and
  -- all the element 7 if it is negative, whatever the pairs of its bits select.
  pub lift_sse_pshufhw_repeats :
      (inst : Instr) (s s1 : LiftState V) (x : V) (t : IrType) (imm : ℕ)
      → imm? (op inst 2) ≡ some imm
      → op_load_aligned b cfg (op inst 1) Facet.vi16 align_max s ≡ some (x, s1)
      → ty x ≡ vector t 8
      → imm < 2 ^ 64
      → (imm + 2 ^ 7) % 2 ^ 64 < 2 ^ 8
      → (v : V) × (lift_sse_pshufw b cfg inst 4 s ≡ store_vec b cfg (op inst 0) v s1)
        × ((i : ℕ)
            → i < 8
            → lane v i ≡ lane x (if ltb i 4 then i else if ltb imm (2 ^ 63) then 4 else 7))
  lift_sse_pshufhw_repeats inst s s1 x t imm e0 e1 tx fits byte = (
    shuffle x x (pshufw_mask imm 4),
    handler_lem inst 4 s s1 x imm e0 e1,
    λ i lt. shuffled_word x t imm 4 i _ tx lt (high_word imm i fits byte lt) (ground arith),
  )
