-- ===== src/Lifter/CarryLoss.antt =====
-- The carry of ADC in LiftArith of src/lifter-gp.cc, which adds the carry flag to the second operand
-- first.
use native.Mathlib.Nat.{mod_self}
use rellume.Prelude.{ℕ, ◌+◌, ◌%◌, ◌^◌, ◌≤◌, ◌<◌, ◌≡◌, leb, bit, false, some, refl, ap, ◌∙◌, arith}
use rellume.Facet.{Facet}
use rellume.Instr.{InstrType}
use rellume.Ir.{Builder, int, BinaryOp, CastOp}
use rellume.Ir.Meaning.{Meaning}
use rellume.Lifter.Monad.{LiftState, Config, get_flag, ◌>>=◌}
use rellume.Lifter.Flags.{flag_calc_add}
use rellume.Lifter.FlagState.{flag_num}
use rellume.Lifter.FlagCorrect.{SetsFlags, flag_calc_add_correct, sum_flags}
use rellume.Lifter.Arith.{with_carry}

wrap_all : (p d : ℕ) → d + 1 ≡ p → (d + 1) % p ≡ 0
wrap_all p d e = rw e (mod_self p)

no_carry : (p d n : ℕ) → d < p → n ≡ 0 → bit (leb p (d + n)) ≡ 0
no_carry p d n h e = ground (arith, h, e)

module _ {V : Type 0} (b : Builder V) (m : Meaning b) (cfg : Config V) where
  open b use {ty, bin, cast}

  -- The second operand of ADC and SBB, with the carry.
  with_carry_lem :
      (op2 c : V) (s s1 : LiftState V)
      → get_flag b Facet.cf s ≡ some (c, s1)
      → with_carry b cfg InstrType.adc op2 s
        ≡ some (bin BinaryOp.add op2 (cast CastOp.zext c (ty op2)), s1)
  unfolding with_carry
  with_carry_lem op2 c s s1 got = rw (with_carry, ◌>>=◌, got) refl

  carried_den :
      (op2 c : V) (w : ℕ)
      → ty op2 ≡ int w
      → ty c ≡ int 1
      → 1 ≤ w
      → m.den (bin BinaryOp.add op2 (cast CastOp.zext c (ty op2))) ≡ (m.den op2 + m.den c) % 2 ^ w
  carried_den op2 c w t u le =
      m.add_den op2 (cast CastOp.zext c (ty op2)) w t (m.cast_ty CastOp.zext c (ty op2) ∙ t)
      ∙ ap (λ (n : ℕ). (m.den op2 + n) % 2 ^ w)
          (ap (λ a. m.den (cast CastOp.zext c a)) t ∙ m.zext_den c 1 w u le)

  -- For a builder that obeys the laws of LLVM's integers: when ADC adds a set carry flag to a second
  -- operand of at least 8 bits, all ones, FlagCalcAdd clears the carry flag, whatever the first
  -- operand is, though the sum of the two operands and the carry is 2 ^ w or more.
  pub adc_loses_carry :
      (op1 op2 c : V) (w : ℕ) (s s1 : LiftState V)
      → ty op1 ≡ int w
      → ty op2 ≡ int w
      → ty c ≡ int 1
      → 8 ≤ w
      → m.den op2 + 1 ≡ 2 ^ w
      → m.den c ≡ 1
      → get_flag b Facet.cf s ≡ some (c, s1)
      → (op2' : V) × (after : LiftState V) × (with_carry b cfg InstrType.adc op2 s
          ≡ some (op2', s1))
        × (flag_calc_add b cfg (bin BinaryOp.add op1 op2') op1 op2' false s1 ≡ some (tt, after))
        × (flag_num b m after Facet.cf ≡ some 0)
        × (2 ^ w ≤ m.den op1 + m.den op2 + m.den c)
  adc_loses_carry op1 op2 c w s s1 t1 t2 tc le full one got =
      let op2' = bin BinaryOp.add op2 (cast CastOp.zext c (ty op2)) in
      let zero_den : m.den op2' ≡ 0 =
        carried_den op2 c w t2 tc (omega arith)
        ∙ ap (λ (n : ℕ). (m.den op2 + n) % 2 ^ w) one
        ∙ wrap_all (2 ^ w) (m.den op2) full in
      let r : SetsFlags b m (flag_calc_add b cfg (bin BinaryOp.add op1 op2') op1 op2' false s1) s1
          (sum_flags w (m.den op1) (m.den op2')) false =
        flag_calc_add_correct b m (bin BinaryOp.add op1 op2') op1 op2' w false s1 cfg t1
          (m.bin_ty BinaryOp.add op2 (cast CastOp.zext c (ty op2)) ∙ t2) refl le in
      (
        op2',
        r.after,
        with_carry_lem op2 c s s1 got,
        r.runs,
        r.flags Facet.cf
            ∙ ap some (no_carry (2 ^ w) (m.den op1) (m.den op2') (m.den_lt op1 w t1) zero_den),
        omega (arith, full, one),
      )
