-- ===== src/Lifter/Arith.antt =====
-- src/lifter-gp.cc: moves and the instructions of addition, subtraction and logic.
use rellume.Prelude.{if◌then◌else◌, Bool, true, false, [], ◌∷◌}
use rellume.Facet.{Facet, in_bits}
use rellume.Register.{rax}
use rellume.Instr.{Instr, InstrType, op, op_bits}
use rellume.Ir.{Builder, int, BinaryOp, CastOp}
use rellume.Lifter.Monad.{
  Lift, ◌>>=◌, ◌>>◌, pure, fail, skip, checked, get_reg, get_flag, set_flag, set_flag_undef, Config,
}
use rellume.Lifter.Operand.{op_load, op_store_gp, store_gp_reg}
use rellume.Lifter.Flags.{flag_calc_z, flag_calc_s, flag_calc_p, flag_calc_add, flag_calc_sub}

abbrev uses_carry : InstrType → Bool
uses_carry InstrType.adc = true
uses_carry InstrType.sbb = true
uses_carry t = false

abbrev is_cmp : InstrType → Bool
is_cmp InstrType.cmp = true
is_cmp t = false

abbrev is_xadd : InstrType → Bool
is_xadd InstrType.xadd = true
is_xadd t = false

module _ {V : Type 0} (b : Builder V) (cfg : Config V) where
  open b use {ty, const_int, null, bin, icmp, select, cast, create_not, create_neg}

  -- Lifter::LiftMovgp
  unfoldable pub lift_movgp : Instr → CastOp → Lift V (Unit {0})
  lift_movgp inst cast_op = do
    val ← op_load b cfg (op inst 1) Facet.i
    op_store_gp b cfg (op inst 0) (cast cast_op val (int (op_bits (op inst 0))))

  -- The second operand of LiftArith: ADC and SBB add the carry to it.
  unfoldable pub with_carry : InstrType → V → Lift V V
  with_carry t op2 =
      if uses_carry t
      then (do cf ← get_flag b Facet.cf; pure (bin BinaryOp.add op2 (cast CastOp.zext cf (ty op2))))
      else pure op2

  -- Lifter::LiftArith: ADD, ADC, SUB, SBB, CMP and XADD
  unfoldable pub lift_arith : Instr → Bool → Lift V (Unit {0})
  lift_arith inst sub = do
    op1 ← op_load b cfg (op inst 0) Facet.i
    op2 ← op_load b cfg (op inst 1) Facet.i
    op2 ← with_carry inst.ty op2
    let res = bin (if sub then BinaryOp.sub else BinaryOp.add) op1 op2
    if is_cmp inst.ty then skip else op_store_gp b cfg (op inst 0) res
    if is_xadd inst.ty then op_store_gp b cfg (op inst 1) op1 else skip
    if sub
        then flag_calc_sub b res op1 op2 false (is_cmp inst.ty)
        else flag_calc_add b cfg res op1 op2 false

  -- Lifter::LiftCmpxchg
  unfoldable pub lift_cmpxchg : Instr → Lift V (Unit {0})
  lift_cmpxchg inst = do
    f ← checked (in_bits (op_bits (op inst 0)))
    acc ← get_reg b rax f
    dst ← op_load b cfg (op inst 0) Facet.i
    src ← op_load b cfg (op inst 1) Facet.i
    flag_calc_sub b (bin BinaryOp.sub acc dst) acc dst false false
    zf ← get_flag b Facet.zf
    op_store_gp b cfg (op inst 0) (select zf src dst)
    store_gp_reg b cfg rax dst

  -- Lifter::LiftXchg
  unfoldable pub lift_xchg : Instr → Lift V (Unit {0})
  lift_xchg inst = do
    op1 ← op_load b cfg (op inst 0) Facet.i
    op2 ← op_load b cfg (op inst 1) Facet.i
    op_store_gp b cfg (op inst 0) op2
    op_store_gp b cfg (op inst 1) op1

  -- Lifter::LiftAndOrXor
  unfoldable pub lift_and_or_xor : Instr → BinaryOp → Bool → Lift V (Unit {0})
  lift_and_or_xor inst bin_op writeback = do
    op1 ← op_load b cfg (op inst 0) Facet.i
    op2 ← op_load b cfg (op inst 1) Facet.i
    let res = bin bin_op op1 op2
    if writeback then op_store_gp b cfg (op inst 0) res else skip
    flag_calc_z b res
    flag_calc_s b res
    flag_calc_p b res
    set_flag_undef b (Facet.af ∷ [])
    set_flag b Facet.cf (const_int 1 0)
    set_flag b Facet.of (const_int 1 0)

  -- Lifter::LiftNot
  unfoldable pub lift_not : Instr → Lift V (Unit {0})
  lift_not inst = do
    val ← op_load b cfg (op inst 0) Facet.i
    op_store_gp b cfg (op inst 0) (create_not val)

  -- Lifter::LiftNeg
  unfoldable pub lift_neg : Instr → Lift V (Unit {0})
  lift_neg inst = do
    op1 ← op_load b cfg (op inst 0) Facet.i
    let res = create_neg op1
    flag_calc_sub b res (null (ty res)) op1 false false
    op_store_gp b cfg (op inst 0) res

  -- Lifter::LiftIncDec; `none` is the null value that the store would fail on.
  unfoldable pub inc_dec : InstrType → V → V → Lift V V
  inc_dec InstrType.inc op1 op2 = do
    let res = bin BinaryOp.add op1 op2
    flag_calc_add b cfg res op1 op2 true
    pure res
  inc_dec InstrType.dec op1 op2 = do
    let res = bin BinaryOp.sub op1 op2
    flag_calc_sub b res op1 op2 true false
    pure res
  inc_dec t op1 op2 = fail

  unfoldable pub lift_inc_dec : Instr → Lift V (Unit {0})
  unfolding inc_dec
  lift_inc_dec inst = do
    op1 ← op_load b cfg (op inst 0) Facet.i
    res ← inc_dec inst.ty op1 (const_int (op_bits (op inst 0)) 1)
    op_store_gp b cfg (op inst 0) res
