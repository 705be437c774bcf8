-- ===== src/Lifter/FlagCorrect.antt =====
-- The status flags after FlagCalcAdd and FlagCalcSub of src/lifter-flags.cc.
use rellume.Prelude.{
  ℕ, ◌+◌, ◌-◌, ◌%◌, ◌^◌, ◌≤◌, ◌≡◌, ◌==◌, ltb, leb, if◌then◌else◌, Bool, true, false, not, ◌&&◌,
  Option, some, arith, refl, ap, ◌∙◌, bit,
}
use rellume.Facet.{Facet, facet_eq}
use rellume.Ir.{Builder, int, BinaryOp, Predicate}
use rellume.Ir.Meaning.{Meaning, negative, signed_add_overflows, signed_sub_overflows}
use rellume.Lifter.Monad.{LiftState, Config}
use rellume.Lifter.Flags.{flag_calc_add, flag_calc_sub, zero_of, parity, adjust, add_overflow}
use rellume.Lifter.FlagState.{
  put_flag, flag_num, flag_num-put_flag, SameRegs, SameRegs-refl, SameRegs-put_flag,
}
use rellume.Lifter.FlagCalc.{
  after_four, after_carry, after_add, after_sub, flag_calc_add-eq, flag_calc_sub-eq, zero_test,
}
use rellume.Lifter.FlagLaws.{sub_is_zero}
use rellume.Lifter.FlagNums.{
  even_parity, zero_test_den, sign_den, parity_den, adjust_add_den, adjust_sub_den, carry_add_den,
  overflow_add_den, overflow_sub_den,
}

-- What the six status flags become; CF keeps its old value if it is to be skipped.
pub record SixFlags : Type 0 where
  pub z : ℕ
  pub s : ℕ
  pub p : ℕ
  pub a : ℕ
  pub c : ℕ
  pub o : ℕ

abbrev pub six_flags : SixFlags → Bool → Facet → Option ℕ → Option ℕ
six_flags n skip_carry Facet.zf old = some n.z
six_flags n skip_carry Facet.sf old = some n.s
six_flags n skip_carry Facet.pf old = some n.p
six_flags n skip_carry Facet.af old = some n.a
six_flags n skip_carry Facet.cf old = if skip_carry then old else some n.c
six_flags n skip_carry Facet.of old = some n.o
six_flags n skip_carry f old = old

-- The flags of the x86 manual for the sum and for the difference of two numbers of w bits.
abbrev pub sum_flags : ℕ → ℕ → ℕ → SixFlags
sum_flags w m n = record {
  z = bit ((m + n) % 2 ^ w == 0);
  s = bit (negative w ((m + n) % 2 ^ w));
  p = bit (even_parity ((m + n) % 2 ^ w));
  a = bit (leb 16 (m % 16 + n % 16));
  c = bit (leb (2 ^ w) (m + n));
  o = bit (signed_add_overflows w m n);
}

abbrev pub difference_flags : ℕ → ℕ → ℕ → SixFlags
difference_flags w m n = record {
  z = bit (m == n);
  s = bit (negative w ((m + 2 ^ w - n) % 2 ^ w));
  p = bit (even_parity ((m + 2 ^ w - n) % 2 ^ w));
  a = bit (ltb (m % 16) (n % 16));
  c = bit (ltb m n);
  o = bit (signed_sub_overflows w m n);
}

-- Six writes, the last one outermost, read back.
abbrev six_writes : SixFlags → Bool → Facet → Option ℕ → Option ℕ
six_writes n skip_carry g old =
    if facet_eq Facet.of g
    then some n.o
    else if not skip_carry && facet_eq Facet.cf g
    then some n.c
    else if facet_eq Facet.af g
    then some n.a
    else if facet_eq Facet.pf g
    then some n.p
    else if facet_eq Facet.sf g
    then some n.s
    else if facet_eq Facet.zf g
    then some n.z
    else old

six_writes_lem :
    (n : SixFlags) (skip_carry : Bool) (g : Facet) (old : Option ℕ)
    → six_writes n skip_carry g old ≡ six_flags n skip_carry g old
unfolding facet_eq
six_writes_lem n true Facet.zf old = refl
six_writes_lem n true g old = refl
six_writes_lem n false Facet.zf old = refl
six_writes_lem n false g old = refl

module _ {V : Type 0} (b : Builder V) (m : Meaning b) where
  flag_num-after_carry :
      (skip_carry : Bool) (v : V) (s : LiftState V) (g : Facet)
      → flag_num b m (after_carry b m skip_carry v s) g
        ≡ (if not skip_carry && facet_eq Facet.cf g then some (m.den v) else flag_num b m s g)
  flag_num-after_carry true v s g = refl
  flag_num-after_carry false v s g = flag_num-put_flag b m Facet.cf g v s

  -- The six values that were written.
  abbrev six_values : V → V → V → V → V → V → SixFlags
  six_values zv sv pv av cv ov = record {
    z = m.den zv;
    s = m.den sv;
    p = m.den pv;
    a = m.den av;
    c = m.den cv;
    o = m.den ov;
  }

  flag_num-after :
      (zv res lhs rhs cv ov : V) (w : ℕ) (skip_carry : Bool) (s : LiftState V) (g : Facet)
      → flag_num b m
          (put_flag b Facet.of ov
            (after_carry b m skip_carry cv (after_four b m zv res lhs rhs w s)))
          g
        ≡ six_flags
            (six_values zv
              (b.icmp Predicate.slt res (zero_of b res))
              (parity b res)
              (adjust b res lhs rhs w)
              cv
              ov)
            skip_carry
            g
            (flag_num b m s g)
  flag_num-after zv res lhs rhs cv ov w skip_carry s g =
      simp (flag_num-put_flag, flag_num-after_carry)
        (six_writes_lem
          (six_values zv (b.icmp Predicate.slt res (zero_of b res)) (parity b res)
            (adjust b res lhs rhs w) cv ov)
          skip_carry g (flag_num b m s g))

  SameRegs-after :
      (zv res lhs rhs cv ov : V) (w : ℕ) (skip_carry : Bool) (s : LiftState V)
      → SameRegs s (
          put_flag b Facet.of ov
            (after_carry b m skip_carry cv (after_four b m zv res lhs rhs w s)))
  SameRegs-after zv res lhs rhs cv ov w true s = search (SameRegs-put_flag, SameRegs-refl) depth 8
  SameRegs-after zv res lhs rhs cv ov w false s = search (SameRegs-put_flag, SameRegs-refl) depth 8

  -- A run that ends well, leaves all but the flags alone, and sets the status flags.
  pub record SetsFlags (run : Option (Unit {0} × LiftState V)) (s : LiftState V) (n : SixFlags)
      (skip_carry : Bool) : Type 0 where
    pub after : LiftState V
    pub runs : run ≡ some (tt, after)
    pub same : SameRegs s after
    pub flags : (f : Facet) → flag_num b m after f ≡ six_flags n skip_carry f (flag_num b m s f)

  module _ (res lhs rhs : V) (w : ℕ) (skip_carry : Bool) (s : LiftState V) where
    -- For a builder that obeys the laws of LLVM's integer operations: after FlagCalcAdd of a sum
    -- of two values of the same width, at least 8 bits, the status flags are those of the numbers
    -- that were added, with the overflow by the intrinsic or not. If the carry is to be skipped,
    -- CF keeps its value. Other flags, other registers and the effects are the same.
    pub flag_calc_add_correct :
        (cfg : Config V)
        → b.ty lhs ≡ int w
        → b.ty rhs ≡ int w
        → res ≡ b.bin BinaryOp.add lhs rhs
        → 8 ≤ w
        → SetsFlags
            (flag_calc_add b cfg res lhs rhs skip_carry s)
            s
            (sum_flags w (m.den lhs) (m.den rhs))
            skip_carry
    flag_calc_add_correct cfg t u r h =
        let res_ty : b.ty res ≡ int w = ap b.ty r ∙ m.bin_ty BinaryOp.add lhs rhs ∙ t in
        let res_den : m.den res ≡ (m.den lhs + m.den rhs) % 2 ^ w =
          ap m.den r ∙ m.add_den lhs rhs w t u in
        record {
          after = after_add b m cfg res lhs rhs w skip_carry s;
          runs = flag_calc_add-eq b m cfg res lhs rhs w skip_carry s res_ty t;
          same = SameRegs-after _ res lhs rhs _ _ w skip_carry s;
          flags = λ f.
              flag_num-after (zero_test b m res) res lhs rhs (b.icmp Predicate.ult res lhs)
                (add_overflow b cfg.enable_overflow_intrinsics res lhs rhs) w skip_carry s f
              ∙ ap (λ (n : SixFlags). six_flags n skip_carry f (flag_num b m s f))
                  (λ i. record {
                    z = (zero_test_den b m w res res_ty ∙ ap (λ (n : ℕ). bit (n == 0)) res_den) i;
                    s = (sign_den b m w res res_ty ∙ ap (λ (n : ℕ). bit (negative w n)) res_den) i;
                    p =
                        (parity_den b m w res res_ty h
                            ∙ ap (λ (n : ℕ). bit (even_parity n)) res_den)
                          i;
                    a = adjust_add_den b m w res lhs rhs t u r (omega arith) i;
                    c = carry_add_den b m w res lhs rhs t u r i;
                    o =
                        overflow_add_den b m w res lhs rhs t u cfg.enable_overflow_intrinsics r
                          (omega arith) i;
                  });
        }

    pub sub_zero_den :
        (alt_zf : Bool)
        → b.ty lhs ≡ int w
        → b.ty rhs ≡ int w
        → res ≡ b.bin BinaryOp.sub lhs rhs
        → m.den (if alt_zf then b.icmp Predicate.eq lhs rhs else zero_test b m res)
          ≡ bit (m.den lhs == m.den rhs)
    sub_zero_den true t u r = m.icmp_den Predicate.eq lhs rhs w t u
    sub_zero_den false t u r =
        zero_test_den b m w res (ap b.ty r ∙ m.bin_ty BinaryOp.sub lhs rhs ∙ t)
        ∙ ap (λ (n : ℕ). bit (n == 0)) (ap m.den r ∙ m.sub_den lhs rhs w t u)
        ∙ ap bit (sub_is_zero w (m.den lhs) (m.den rhs) (m.den_lt lhs w t) (m.den_lt rhs w u))

    -- For a builder that obeys the laws of LLVM's integer operations: after FlagCalcSub of a
    -- difference of two values of the same width, at least 8 bits, the status flags are those of
    -- the numbers that were subtracted, with either way to compute ZF. If the carry is to be
    -- skipped, CF keeps its value. Other flags, other registers and the effects are the same.
    pub flag_calc_sub_correct :
        (alt_zf : Bool)
        → b.ty lhs ≡ int w
        → b.ty rhs ≡ int w
        → res ≡ b.bin BinaryOp.sub lhs rhs
        → 8 ≤ w
        → SetsFlags
            (flag_calc_sub b res lhs rhs skip_carry alt_zf s)
            s
            (difference_flags w (m.den lhs) (m.den rhs))
            skip_carry
    flag_calc_sub_correct alt_zf t u r h =
        let res_ty : b.ty res ≡ int w = ap b.ty r ∙ m.bin_ty BinaryOp.sub lhs rhs ∙ t in
        let res_den : m.den res ≡ (m.den lhs + 2 ^ w - m.den rhs) % 2 ^ w =
          ap m.den r ∙ m.sub_den lhs rhs w t u in
        record {
          after = after_sub b m res lhs rhs w skip_carry alt_zf s;
          runs = flag_calc_sub-eq b m res lhs rhs w skip_carry alt_zf s res_ty t;
          same = SameRegs-after _ res lhs rhs _ _ w skip_carry s;
          flags = λ f.
              flag_num-after (if alt_zf then b.icmp Predicate.eq lhs rhs else zero_test b m res) res
                lhs rhs (b.icmp Predicate.ult lhs rhs)
                (b.icmp Predicate.ne (b.icmp Predicate.slt res (zero_of b res))
                  (b.icmp Predicate.slt lhs rhs))
                w skip_carry s f
              ∙ ap (λ (n : SixFlags). six_flags n skip_carry f (flag_num b m s f))
                  (λ i. record {
                    z = sub_zero_den alt_zf t u r i;
                    s = (sign_den b m w res res_ty ∙ ap (λ (n : ℕ). bit (negative w n)) res_den) i;
                    p =
                        (parity_den b m w res res_ty h
                            ∙ ap (λ (n : ℕ). bit (even_parity n)) res_den)
                          i;
                    a = adjust_sub_den b m w res lhs rhs t u r (omega arith) i;
                    c = m.icmp_den Predicate.ult lhs rhs w t u i;
                    o = overflow_sub_den b m w res lhs rhs t u r i;
                  });
        }
