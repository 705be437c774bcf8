-- ===== src/Lifter/FlagNums.antt =====
-- The numbers of the values that src/lifter-flags.cc puts into the flags.
use native.Mathlib.Nat.{one-le-pow, mod-eq_of_lt}
use rellume.Prelude.{
  ℕ, ◌+◌, ◌-◌, ◌/◌, ◌%◌, ◌^◌, ◌≤◌, ◌<◌, ◌≡◌, ◌==◌, ltb, leb, Bool, true, false, not, [], ◌∷◌, arith,
  refl, ap, ◌∙◌, bit, bit_and, bit_xor, ◌&&◌,
}
use rellume.Ir.{Builder, IrType, int, BinaryOp, CastOp, Predicate, Intrinsic}
use rellume.Ir.Meaning.{
  Meaning, negative, signed_lt, signed_add_overflows, signed_sub_overflows, ones,
}
use rellume.Lifter.Flags.{zero_of, parity, adjust, add_overflow}
use rellume.Lifter.FlagLaws.{
  bit_xor_bool, overflow_bits, carry_of_sum, sub_overflow, add_overflow_lem, multiple_of_32,
  adjust_of_sum, adjust_of_difference, adjust_digit,
}

-- The even parity of the lowest byte.
abbrev pub even_parity : ℕ → Bool
even_parity n = ones 8 (n % 2 ^ 8) % 2 == 0

module _ {V : Type 0} (b : Builder V) (m : Meaning b) (w : ℕ) where
  open b use {ty, null, bin, icmp, const_int, create_not}
  open m use {den}

  zero_ty : (v : V) → ty v ≡ int w → ty (zero_of b v) ≡ int w
  zero_ty v t = m.null_ty (ty v) ∙ t

  zero_den : (v : V) → ty v ≡ int w → den (zero_of b v) ≡ 0
  zero_den v t = ap (λ (t : IrType). den (null t)) t ∙ m.null_den w

  pub zero_test_den :
      (v : V) → ty v ≡ int w → den (icmp Predicate.eq v (zero_of b v)) ≡ bit (den v == 0)
  zero_test_den v t = rw (m.icmp_den Predicate.eq v _ w t (zero_ty v t), zero_den v t) refl

  -- A signed comparison with 0 tests the sign.
  negative_test :
      (v z : V)
      → ty v ≡ int w
      → ty z ≡ int w
      → den z ≡ 0
      → den (icmp Predicate.slt v z) ≡ bit (negative w (den v))
  negative_test v z t u e =
      rw (m.icmp_den Predicate.slt v z w t u, e) (ground (arith, one-le-pow w 2))

  pub sign_den :
      (v : V) → ty v ≡ int w → den (icmp Predicate.slt v (zero_of b v)) ≡ bit (negative w (den v))
  sign_den v t = negative_test v (zero_of b v) t (zero_ty v t) (zero_den v t)

  pub parity_den : (v : V) → ty v ≡ int w → 8 ≤ w → den (parity b v) ≡ bit (even_parity (den v))
  parity_den v t h =
      let trunc = b.cast CastOp.trunc_or_bitcast v (int 8) in
      let trunc_ty : ty trunc ≡ int 8 = m.cast_ty _ v (int 8) in
      let count = b.intrinsic Intrinsic.ctpop (trunc ∷ []) in
      let count_ty : ty count ≡ int 8 = m.ctpop_ty trunc ∙ trunc_ty in
      let low = b.cast CastOp.trunc count (int 1) in
      let low_den : den low ≡ ones 8 (den v % 2 ^ 8) % 2 =
        rw
          (
            m.trunc_den count 8 1 count_ty (omega arith),
            m.ctpop_den trunc 8 trunc_ty,
            m.trunc_or_bitcast_den v w 8 t h,
          )
          refl in
      rw (m.not_den low 1 (m.cast_ty _ count (int 1)), low_den) (ground arith)

  module _ (res lhs rhs : V) (t : ty res ≡ int w) (u : ty lhs ≡ int w) (v : ty rhs ≡ int w) where
    one_ty : ty (bin BinaryOp.xor lhs rhs) ≡ int w
    one_ty = m.bin_ty BinaryOp.xor lhs rhs ∙ u

    two_ty : ty (bin BinaryOp.xor (bin BinaryOp.xor lhs rhs) res) ≡ int w
    two_ty = m.bin_ty BinaryOp.xor (bin BinaryOp.xor lhs rhs) res ∙ one_ty

    masked_ty :
        ty (bin BinaryOp.and (bin BinaryOp.xor (bin BinaryOp.xor lhs rhs) res) (const_int w 16))
        ≡ int w
    masked_ty =
        m.bin_ty BinaryOp.and (bin BinaryOp.xor (bin BinaryOp.xor lhs rhs) res) (const_int w 16)
        ∙ two_ty

    -- FlagCalcA compares the digits 4 of the operands and of the result.
    adjust_den :
        5 ≤ w
        → den (adjust b res lhs rhs w)
          ≡ ((den lhs / 16 % 2 + den rhs / 16 % 2) % 2 + den res / 16 % 2) % 2
    adjust_den h =
        let (q, e) = multiple_of_32 w h in
        let fits : 16 % 2 ^ w ≡ 16 = mod-eq_of_lt (omega (arith, e, one-le-pow w 2)) in
        rw
          (
            m.icmp_den Predicate.ne _ _ w masked_ty (zero_ty res t),
            zero_den res t,
            m.and_den (bin BinaryOp.xor (bin BinaryOp.xor lhs rhs) res) (const_int w 16) w two_ty
                (m.const_int_ty w 16),
            m.const_int_den w 16,
            fits,
            m.xor_den (bin BinaryOp.xor lhs rhs) res w one_ty t,
            m.xor_den lhs rhs w u v,
            adjust_digit (den lhs) (den rhs) (den res),
          )
          (ground arith)

-- The flags of a sum and of a difference of two operands of w bits.
module _ {V : Type 0} (b : Builder V) (m : Meaning b) (w : ℕ) (res lhs rhs : V) where
  open b use {ty, bin, icmp}
  open m use {den}

  module _ (t : ty lhs ≡ int w) (u : ty rhs ≡ int w) where
    lhs_lt : den lhs < 2 ^ w
    lhs_lt = m.den_lt lhs w t

    rhs_lt : den rhs < 2 ^ w
    rhs_lt = m.den_lt rhs w u

    pub adjust_add_den :
        res ≡ bin BinaryOp.add lhs rhs
        → 5 ≤ w
        → den (adjust b res lhs rhs w) ≡ bit (leb 16 (den lhs % 16 + den rhs % 16))
    adjust_add_den r h =
        let (q, e) = multiple_of_32 w h in
        let res_ty : ty res ≡ int w = ap ty r ∙ m.bin_ty BinaryOp.add lhs rhs ∙ t in
        adjust_den b m w res lhs rhs res_ty t u h
        ∙ ap (λ (n : ℕ). ((den lhs / 16 % 2 + den rhs / 16 % 2) % 2 + n / 16 % 2) % 2)
            (ap den r ∙ m.add_den lhs rhs w t u)
        ∙ adjust_of_sum q (2 ^ w) (den lhs) (den rhs) e lhs_lt rhs_lt

    pub adjust_sub_den :
        res ≡ bin BinaryOp.sub lhs rhs
        → 5 ≤ w
        → den (adjust b res lhs rhs w) ≡ bit (ltb (den lhs % 16) (den rhs % 16))
    adjust_sub_den r h =
        let (q, e) = multiple_of_32 w h in
        let res_ty : ty res ≡ int w = ap ty r ∙ m.bin_ty BinaryOp.sub lhs rhs ∙ t in
        adjust_den b m w res lhs rhs res_ty t u h
        ∙ ap (λ (n : ℕ). ((den lhs / 16 % 2 + den rhs / 16 % 2) % 2 + n / 16 % 2) % 2)
            (ap den r ∙ m.sub_den lhs rhs w t u)
        ∙ adjust_of_difference q (2 ^ w) (den lhs) (den rhs) e lhs_lt rhs_lt

    -- The carry of an addition is the unsigned comparison of the result with an operand.
    pub carry_add_den :
        res ≡ bin BinaryOp.add lhs rhs
        → den (icmp Predicate.ult res lhs) ≡ bit (leb (2 ^ w) (den lhs + den rhs))
    carry_add_den r =
        let res_ty : ty res ≡ int w = ap ty r ∙ m.bin_ty BinaryOp.add lhs rhs ∙ t in
        m.icmp_den Predicate.ult res lhs w res_ty t
        ∙ ap (λ (n : ℕ). bit (ltb n (den lhs))) (ap den r ∙ m.add_den lhs rhs w t u)
        ∙ ap bit (carry_of_sum w (den lhs) (den rhs) lhs_lt rhs_lt)

    pub overflow_sub_den :
        res ≡ bin BinaryOp.sub lhs rhs
        → den (
            icmp Predicate.ne (icmp Predicate.slt res (zero_of b res)) (icmp Predicate.slt lhs rhs))
          ≡ bit (signed_sub_overflows w (den lhs) (den rhs))
    overflow_sub_den r =
        let res_ty : ty res ≡ int w = ap ty r ∙ m.bin_ty BinaryOp.sub lhs rhs ∙ t in
        let sf_ty = m.icmp_ty Predicate.slt res (zero_of b res) w res_ty in
        let lt_ty = m.icmp_ty Predicate.slt lhs rhs w t in
        rw
          (
            m.icmp_den Predicate.ne _ _ 1 sf_ty lt_ty,
            sign_den b m w res res_ty,
            m.icmp_den Predicate.slt lhs rhs w t u,
          )
          (ap (λ (n : ℕ). bit (not (bit (negative w n) == bit (signed_lt w (den lhs) (den rhs)))))
              (ap den r ∙ m.sub_den lhs rhs w t u)
            ∙ ap bit (sub_overflow w (den lhs) (den rhs) lhs_lt rhs_lt))

    pub overflow_add_den :
        (use_intrinsic : Bool)
        → res ≡ bin BinaryOp.add lhs rhs
        → 0 < w
        → den (add_overflow b use_intrinsic res lhs rhs)
          ≡ bit (signed_add_overflows w (den lhs) (den rhs))
    overflow_add_den true r h = m.sadd_den lhs rhs w t u
    overflow_add_den false r h =
        let res_ty : ty res ≡ int w = ap ty r ∙ m.bin_ty BinaryOp.add lhs rhs ∙ t in
        let both = bin BinaryOp.xor lhs rhs in
        let both_ty : ty both ≡ int w = m.bin_ty BinaryOp.xor lhs rhs ∙ t in
        let same = b.create_not both in
        let same_ty : ty same ≡ int w = m.not_ty both ∙ both_ty in
        let changed = bin BinaryOp.xor res lhs in
        let tmp2 = bin BinaryOp.and same changed in
        let tmp2_ty : ty tmp2 ≡ int w = m.bin_ty BinaryOp.and same changed ∙ same_ty in
        let tmp2_den : den tmp2
            ≡ bit_and (2 ^ w - 1 - bit_xor (den lhs) (den rhs)) (bit_xor (den res) (den lhs)) =
          rw
            (
              m.and_den same changed w same_ty (m.bin_ty BinaryOp.xor res lhs ∙ res_ty),
              m.not_den both w both_ty,
              m.xor_den lhs rhs w t u,
              m.xor_den res lhs w res_ty t,
            )
            refl in
        negative_test b m w tmp2 (zero_of b res) tmp2_ty (zero_ty b m w res res_ty)
          (zero_den b m w res res_ty)
        ∙ ap (λ (n : ℕ). bit (negative w n)) tmp2_den
        ∙ ap bit
            (overflow_bits w (den lhs) (den rhs) (den res) h lhs_lt rhs_lt (m.den_lt res w res_ty))
        ∙ ap
            (λ (n : ℕ). bit (
              not (bit_xor_bool (negative w (den lhs)) (negative w (den rhs)))
              && bit_xor_bool (negative w n) (negative w (den lhs))))
            (ap den r ∙ m.add_den lhs rhs w t u)
        ∙ ap bit (add_overflow_lem w (den lhs) (den rhs) lhs_lt rhs_lt)
