-- ===== src/Lifter/Shift.antt =====
-- src/lifter-gp.cc: shifts, rotations, multiplication and division.
use rellume.Prelude.{
  ℕ, ◌*◌, ◌==◌, leb, if◌then◌else◌, ◌||◌, Bool, true, false, Option, none, some, [], ◌∷◌,
}
use rellume.Facet.{Facet, in_bits}
use rellume.Register.{rax, rdx}
use rellume.Instr.{Instr, InstrType, Op, op, op_bits, op_size, is_present}
use rellume.Ir.{Builder, IrType, int, int_width, BinaryOp, CastOp, Predicate, Intrinsic}
use rellume.Lifter.Monad.{
  Lift, ◌>>=◌, ◌>>◌, pure, checked, require, get_reg, set_flag, set_flag_undef, Config,
}
use rellume.Lifter.Operand.{op_load, op_store_gp, store_gp_reg, store_gp_facet}
use rellume.Lifter.Flags.{flag_calc_z, flag_calc_s, flag_calc_p, zero_of}

abbrev is_sar : InstrType → Bool
is_sar InstrType.sar = true
is_sar t = false

abbrev is_shl : InstrType → Bool
is_shl InstrType.shl = true
is_shl t = false

abbrev is_rol : InstrType → Bool
is_rol InstrType.rol = true
is_rol t = false

abbrev is_imul : InstrType → Bool
is_imul InstrType.imul = true
is_imul t = false

abbrev is_idiv : InstrType → Bool
is_idiv InstrType.idiv = true
is_idiv t = false

-- The bits of a shift amount that count.
abbrev pub shift_mask : Op → ℕ
shift_mask o = if op_size o == 8 then 0x3f else 0x1f

module _ {V : Type 0} (b : Builder V) (cfg : Config V) where
  open b use {ty, const_int, bin, icmp, cast, intrinsic, extract_value}

  -- The operand of a shift, which is widened to 32 bits.
  abbrev pub shift_source : Instr → V → V
  shift_source inst src =
      if leb 4 (op_size (op inst 0))
      then src
      else if is_sar inst.ty
      then cast CastOp.sext src (int 32)
      else cast CastOp.zext src (int 32)

  -- The last bit that is shifted out, as the lowest bit of a value.
  abbrev pub shifted_out : Instr → V → V → ℕ → V
  shifted_out inst src_ex shift w =
      if is_shl inst.ty
      then bin BinaryOp.lshr src_ex (bin BinaryOp.sub (const_int w (op_bits (op inst 0))) shift)
      else bin BinaryOp.lshr src_ex (bin BinaryOp.sub shift (const_int w 1))

  -- Lifter::LiftShift
  unfoldable pub lift_shift : Instr → BinaryOp → Lift V (Unit {0})
  lift_shift inst bin_op = do
    src ← op_load b cfg (op inst 0) Facet.i
    let src_ex = shift_source inst src
    w ← checked (int_width (ty src_ex))
    require (is_present (op inst 1))
    amount ← op_load b cfg (op inst 1) Facet.i
    let shift =
        bin BinaryOp.and (cast CastOp.zext amount (ty src_ex))
          (const_int w (shift_mask (op inst 0)))
    let res = cast CastOp.trunc (bin bin_op src_ex shift) (ty src)
    op_store_gp b cfg (op inst 0) res
    flag_calc_s b res
    flag_calc_z b res
    flag_calc_p b res
    set_flag b Facet.cf (cast CastOp.trunc (shifted_out inst src_ex shift w) (int 1))
    set_flag b Facet.of (icmp Predicate.slt (bin BinaryOp.xor src res) (zero_of b src))
    set_flag_undef b (Facet.af ∷ [])

  -- The call of the intrinsic in LiftShiftdouble.
  abbrev shiftdouble : InstrType → V → V → V → Option V
  shiftdouble InstrType.shld src1 src2 shift =
      some (intrinsic Intrinsic.fshl (src1 ∷ src2 ∷ shift ∷ []))
  shiftdouble InstrType.shrd src1 src2 shift =
      some (intrinsic Intrinsic.fshr (src2 ∷ src1 ∷ shift ∷ []))
  shiftdouble t src1 src2 shift = none

  -- The masked amount of a double shift or a rotation.
  unfoldable pub shift_amount : Op → Op → IrType → Lift V V
  shift_amount dst amount t = do
    require (is_present amount)
    w ← checked (int_width t)
    val ← op_load b cfg amount Facet.i
    pure (bin BinaryOp.and (cast CastOp.zext val t) (const_int w (shift_mask dst)))

  -- Lifter::LiftShiftdouble
  unfoldable pub lift_shiftdouble : Instr → Lift V (Unit {0})
  lift_shiftdouble inst = do
    src1 ← op_load b cfg (op inst 0) Facet.i
    src2 ← op_load b cfg (op inst 1) Facet.i
    shift ← shift_amount (op inst 0) (op inst 2) (ty src1)
    res ← checked (shiftdouble inst.ty src1 src2 shift)
    op_store_gp b cfg (op inst 0) res
    flag_calc_z b res
    flag_calc_s b res
    flag_calc_p b res
    set_flag_undef b (Facet.of ∷ Facet.af ∷ Facet.cf ∷ [])

  -- Lifter::LiftRotate
  unfoldable pub lift_rotate : Instr → Lift V (Unit {0})
  lift_rotate inst = do
    src ← op_load b cfg (op inst 0) Facet.i
    shift ← shift_amount (op inst 0) (op inst 1) (ty src)
    let id = if is_rol inst.ty then Intrinsic.fshl else Intrinsic.fshr
    op_store_gp b cfg (op inst 0) (intrinsic id (src ∷ src ∷ shift ∷ []))
    set_flag_undef b (Facet.of ∷ Facet.cf ∷ [])

  -- The operands of LiftMul.
  unfoldable pub mul_operands : Instr → Lift V (V × V)
  mul_operands inst =
      if is_present (op inst 2)
      then (do
        op1 ← op_load b cfg (op inst 1) Facet.i
        op2 ← op_load b cfg (op inst 2) Facet.i
        pure (op1, op2))
      else if is_present (op inst 1)
      then (do
        op1 ← op_load b cfg (op inst 0) Facet.i
        op2 ← op_load b cfg (op inst 1) Facet.i
        pure (op1, op2))
      else do
        op1 ← op_load b cfg (op inst 0) Facet.i
        f ← checked (in_bits (op_bits (op inst 0)))
        op2 ← get_reg b rax f
        pure (op1, op2)

  -- The product of the one-operand form goes to AX, or to DX:AX by halves.
  unfoldable pub store_product : ℕ → V → Lift V (Unit {0})
  store_product sz ext_res = if sz == 8 then store_gp_reg b cfg rax ext_res else do
    let high = bin BinaryOp.lshr ext_res (const_int (sz * 2) sz)
    store_gp_reg b cfg rax (cast CastOp.trunc ext_res (int sz))
    store_gp_reg b cfg rdx (cast CastOp.trunc high (int sz))

  -- Lifter::LiftMul
  unfoldable pub lift_mul : Instr → Lift V (Unit {0})
  lift_mul inst = do
    let sz = op_bits (op inst 0)
    let sign = is_imul inst.ty
    (op1, op2) ← mul_operands inst
    let short_res = bin BinaryOp.mul op1 op2
    let cast_op = if sign then CastOp.sext else CastOp.zext
    let double_ty = int (sz * 2)
    let ext_res = bin BinaryOp.mul (cast cast_op op1 double_ty) (cast cast_op op2 double_ty)
    if is_present (op inst 2) || is_present (op inst 1)
        then op_store_gp b cfg (op inst 0) short_res
        else store_product sz ext_res
    let id = if sign then Intrinsic.smul_with_overflow else Intrinsic.umul_with_overflow
    let overflow =
        if cfg.enable_overflow_intrinsics
        then extract_value (intrinsic id (op1 ∷ op2 ∷ [])) 1
        else icmp Predicate.ne ext_res (cast cast_op short_res double_ty)
    set_flag b Facet.of overflow
    set_flag b Facet.cf overflow
    set_flag_undef b (Facet.sf ∷ Facet.zf ∷ Facet.af ∷ Facet.pf ∷ [])

  -- The dividend of LiftDiv: AX, or DX:AX joined.
  unfoldable pub dividend_of : ℕ → Lift V V
  dividend_of sz = if sz == 8 then get_reg b rax Facet.i16 else do
    f ← checked (in_bits sz)
    low ← get_reg b rax f
    high ← get_reg b rdx f
    let ex_ty = int (sz * 2)
    let high_ex = bin BinaryOp.shl (cast CastOp.zext high ex_ty) (const_int (sz * 2) sz)
    pure (bin BinaryOp.or (cast CastOp.zext low ex_ty) high_ex)

  -- Lifter::LiftDiv
  unfoldable pub lift_div : Instr → Lift V (Unit {0})
  lift_div inst = do
    let sz = op_bits (op inst 0)
    let sign = is_idiv inst.ty
    dividend ← dividend_of sz
    val ← op_load b cfg (op inst 0) Facet.i
    let divisor = cast (if sign then CastOp.sext else CastOp.zext) val (int (sz * 2))
    let div_op = if sign then BinaryOp.sdiv else BinaryOp.udiv
    let rem_op = if sign then BinaryOp.srem else BinaryOp.urem
    let quot = cast CastOp.trunc (bin div_op dividend divisor) (int sz)
    let rem = cast CastOp.trunc (bin rem_op dividend divisor) (int sz)
    if sz == 8 then store_gp_facet b cfg rax Facet.i8 quot else store_gp_reg b cfg rax quot
    if sz == 8 then store_gp_facet b cfg rax Facet.i8h rem else store_gp_reg b cfg rdx rem
    set_flag_undef b (Facet.of ∷ Facet.sf ∷ Facet.zf ∷ Facet.af ∷ Facet.pf ∷ Facet.cf ∷ [])
