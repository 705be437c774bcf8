-- ===== src/Lifter/Flags.antt =====
-- src/lifter-flags.cc, and FlagCalcZ and FlagCalcS of src/lifter-private.h: the status flags.
use rellume.Prelude.{
  ℕ, ◌/◌, ◌%◌, ◌==◌, leb, if◌then◌else◌, Bool, true, false, List, [], ◌∷◌, get_or,
}
use rellume.Facet.{Facet}
use rellume.Ir.{Builder, int, int_width, BinaryOp, CastOp, Predicate, Intrinsic}
use rellume.Lifter.Monad.{Lift, ◌>>=◌, ◌>>◌, pure, fail, skip, checked, get_flag, set_flag, Config}

-- The enumerators of Condition, by pairs of a condition and its negation.
pub data Condition : Type 0 where
  o no c nc z nz be a s ns p np l ge le g : Condition

abbrev cond_value : Condition → ℕ
cond_value Condition.o = 0
cond_value Condition.no = 1
cond_value Condition.c = 2
cond_value Condition.nc = 3
cond_value Condition.z = 4
cond_value Condition.nz = 5
cond_value Condition.be = 6
cond_value Condition.a = 7
cond_value Condition.s = 8
cond_value Condition.ns = 9
cond_value Condition.p = 10
cond_value Condition.np = 11
cond_value Condition.l = 12
cond_value Condition.ge = 13
cond_value Condition.le = 14
cond_value Condition.g = 15

abbrev even_conditions : List Condition
even_conditions =
    Condition.o ∷ Condition.c ∷ Condition.z ∷ Condition.be ∷ Condition.s ∷ Condition.p ∷ Condition.l
    ∷ Condition.le ∷ []

-- cond & ~1 and cond & 1
abbrev pub without_negation : Condition → Condition
without_negation cond = get_or even_conditions (cond_value cond / 2) Condition.o

abbrev pub is_negated : Condition → Bool
is_negated cond = cond_value cond % 2 == 1

pub record FlagIndex : Type 0 where
  pub flag : Facet
  pub position : ℕ

-- RFLAGS_INDICES
abbrev pub rflags_indices : List FlagIndex
rflags_indices =
    record { flag = Facet.cf; position = 0 }
    ∷ record { flag = Facet.pf; position = 2 }
    ∷ record { flag = Facet.af; position = 4 }
    ∷ record { flag = Facet.zf; position = 6 }
    ∷ record { flag = Facet.sf; position = 7 }
    ∷ record { flag = Facet.df; position = 10 }
    ∷ record { flag = Facet.of; position = 11 }
    ∷ []

module _ {V : Type 0} (b : Builder V) where
  open b use {ty, const_int, null, bin, create_not, icmp, cast, intrinsic, extract_value}

  -- getNullValue of the type of an integer value.
  abbrev pub zero_of : V → V
  zero_of v = null (ty v)

  -- The switch of FlagCond, on the even conditions.
  unfoldable pub even_cond : Condition → Lift V V
  even_cond Condition.o = get_flag b Facet.of
  even_cond Condition.c = get_flag b Facet.cf
  even_cond Condition.z = get_flag b Facet.zf
  even_cond Condition.be = do
    cf ← get_flag b Facet.cf
    zf ← get_flag b Facet.zf
    pure (bin BinaryOp.or cf zf)
  even_cond Condition.s = get_flag b Facet.sf
  even_cond Condition.p = get_flag b Facet.pf
  even_cond Condition.l = do
    sf ← get_flag b Facet.sf
    of ← get_flag b Facet.of
    pure (icmp Predicate.ne sf of)
  even_cond Condition.le = do
    zf ← get_flag b Facet.zf
    sf ← get_flag b Facet.sf
    of ← get_flag b Facet.of
    pure (bin BinaryOp.or zf (icmp Predicate.ne sf of))
  even_cond cond = fail

  -- LifterBase::FlagCond
  unfoldable pub flag_cond : Condition → Lift V V
  unfolding even_cond
  flag_cond cond = do
    result ← even_cond (without_negation cond)
    pure (if is_negated cond then create_not result else result)

  -- The loop of FlagAsReg.
  unfoldable pub or_flags : List FlagIndex → V → Lift V V
  or_flags [] res = pure res
  or_flags (kv ∷ rest) res = do
    flag ← get_flag b kv.flag
    let ext_bit = cast CastOp.zext flag (int 64)
    or_flags rest (bin BinaryOp.or res (bin BinaryOp.shl ext_bit (const_int 64 kv.position)))

  -- LifterBase::FlagAsReg. Bit 1 is always set, and bit 9 is IF.
  unfoldable pub flag_as_reg : ℕ → Lift V V
  unfolding or_flags
  flag_as_reg size = do
    res ← or_flags rflags_indices (const_int 64 0x202)
    pure (cast CastOp.trunc_or_bitcast res (int size))

  -- The loop of FlagFromReg, which leaves at the first position outside the value.
  unfoldable pub set_flags : List FlagIndex → ℕ → V → Lift V (Unit {0})
  set_flags [] sz val = skip
  set_flags (kv ∷ rest) sz val = elim (leb sz kv.position) [
    | true ↦ skip
    | false ↦ do
      set_flag b kv.flag
          (cast CastOp.trunc (bin BinaryOp.lshr val (const_int sz kv.position)) (int 1))
      set_flags rest sz val
  ]

  -- LifterBase::FlagFromReg
  unfoldable pub flag_from_reg : V → Lift V (Unit {0})
  unfolding set_flags
  flag_from_reg val = do sz ← checked (int_width (ty val)); set_flags rflags_indices sz val

  -- LifterBase::FlagCalcZ
  unfoldable pub flag_calc_z : V → Lift V (Unit {0})
  flag_calc_z v = set_flag b Facet.zf (icmp Predicate.eq v (zero_of v))

  -- LifterBase::FlagCalcS
  unfoldable pub flag_calc_s : V → Lift V (Unit {0})
  flag_calc_s v = set_flag b Facet.sf (icmp Predicate.slt v (zero_of v))

  -- LifterBase::FlagCalcP
  abbrev pub parity : V → V
  parity v =
      let trunc = cast CastOp.trunc_or_bitcast v (int 8) in
      let count = intrinsic Intrinsic.ctpop (trunc ∷ []) in
      create_not (cast CastOp.trunc count (int 1))

  unfoldable pub flag_calc_p : V → Lift V (Unit {0})
  flag_calc_p v = set_flag b Facet.pf (parity v)

  -- LifterBase::FlagCalcA
  abbrev pub adjust : V → V → V → ℕ → V
  adjust res lhs rhs w =
      let tmp = bin BinaryOp.xor (bin BinaryOp.xor lhs rhs) res in
      let masked = bin BinaryOp.and tmp (const_int w 16) in icmp Predicate.ne masked (zero_of res)

  unfoldable pub flag_calc_a : V → V → V → Lift V (Unit {0})
  flag_calc_a res lhs rhs = do
    w ← checked (int_width (ty res))
    set_flag b Facet.af (adjust res lhs rhs w)

  -- The value of OF after an addition, by the intrinsic or by the signs.
  abbrev pub add_overflow : Bool → V → V → V → V
  add_overflow true res lhs rhs =
      extract_value (intrinsic Intrinsic.sadd_with_overflow (lhs ∷ rhs ∷ [])) 1
  add_overflow false res lhs rhs =
      let tmp1 = create_not (bin BinaryOp.xor lhs rhs) in
      let tmp2 = bin BinaryOp.and tmp1 (bin BinaryOp.xor res lhs) in
      icmp Predicate.slt tmp2 (zero_of res)

  -- LifterBase::FlagCalcAdd
  unfoldable pub flag_calc_add : Config V → V → V → V → Bool → Lift V (Unit {0})
  flag_calc_add cfg res lhs rhs skip_carry = do
    flag_calc_z res
    flag_calc_s res
    flag_calc_p res
    flag_calc_a res lhs rhs
    if skip_carry then skip else set_flag b Facet.cf (icmp Predicate.ult res lhs)
    set_flag b Facet.of (add_overflow cfg.enable_overflow_intrinsics res lhs rhs)

  -- LifterBase::FlagCalcSub
  unfoldable pub flag_calc_sub : V → V → V → Bool → Bool → Lift V (Unit {0})
  flag_calc_sub res lhs rhs skip_carry alt_zf = do
    let sf = icmp Predicate.slt res (zero_of res)
    set_flag b Facet.zf
        (if alt_zf then icmp Predicate.eq lhs rhs else icmp Predicate.eq res (zero_of res))
    set_flag b Facet.sf sf
    flag_calc_p res
    flag_calc_a res lhs rhs
    if skip_carry then skip else set_flag b Facet.cf (icmp Predicate.ult lhs rhs)
    set_flag b Facet.of (icmp Predicate.ne sf (icmp Predicate.slt lhs rhs))
