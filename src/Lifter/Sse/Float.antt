-- ===== src/Lifter/Sse/Float.antt =====
-- src/lifter-sse.cc: operations on two values of a type, comparisons and conversions of
-- floating-point values.
use rellume.Prelude.{ℕ, ◌==◌, if◌then◌else◌, false, Option, none, some, [], ◌∷◌}
use rellume.Facet.{Facet, facet_eq, resolve}
use rellume.Instr.{Instr, op, op_bits, imm?}
use rellume.Ir.{
  Builder, IrType, int, float, double, vector, primitive_bits, facet_type, BinaryOp, CastOp,
  FloatPredicate, Intrinsic,
}
use rellume.Lifter.Monad.{Lift, ◌>>=◌, ◌>>◌, fail, checked, set_flag, Config}
use rellume.Lifter.Operand.{align_imp, align_max, op_load, op_store_gp}
use rellume.Lifter.Vector.{op_load_aligned, store_vec, store_vec_at}

-- The predicate that the immediate of CMPPS and its kin selects.
unfoldable pub cmp_predicate : ℕ → Option FloatPredicate
cmp_predicate imm =
    if imm == 0
    then some FloatPredicate.oeq
    else if imm == 1
    then some FloatPredicate.olt
    else if imm == 2
    then some FloatPredicate.ole
    else if imm == 3
    then some FloatPredicate.uno
    else if imm == 4
    then some FloatPredicate.une
    else if imm == 5
    then some FloatPredicate.uge
    else if imm == 6
    then some FloatPredicate.ugt
    else if imm == 7
    then some FloatPredicate.ord
    else none

-- The integer type of the shape of a type, as LiftSseCmp builds it.
abbrev pub mask_type : IrType → IrType
mask_type (vector t n) = vector (int (primitive_bits t)) n
mask_type t = int (primitive_bits t)

module _ {V : Type 0} (b : Builder V) (cfg : Config V) where
  open b use {ty, null, const_int, bin, create_not, fcmp, select, cast, intrinsic, shuffle}

  -- Lifter::LiftSseBinOp
  unfoldable pub lift_sse_bin_op : Instr → BinaryOp → Facet → Lift V (Unit {0})
  lift_sse_bin_op inst o op_type = do
    op1 ← op_load_aligned b cfg (op inst 0) op_type align_imp
    op2 ← op_load_aligned b cfg (op inst 1) op_type align_imp
    store_vec_at b cfg (op inst 0) (bin o op1 op2) false align_imp

  -- Lifter::LiftSseAndn
  unfoldable pub lift_sse_andn : Instr → Facet → Lift V (Unit {0})
  lift_sse_andn inst op_type = do
    op1 ← op_load_aligned b cfg (op inst 0) op_type align_max
    op2 ← op_load_aligned b cfg (op inst 1) op_type align_max
    store_vec b cfg (op inst 0) (bin BinaryOp.and (create_not op1) op2)

  -- Lifter::LiftSseComis
  unfoldable pub lift_sse_comis : Instr → Facet → Lift V (Unit {0})
  lift_sse_comis inst op_type = do
    op1 ← op_load b cfg (op inst 0) op_type
    op2 ← op_load b cfg (op inst 1) op_type
    set_flag b Facet.zf (fcmp FloatPredicate.ueq op1 op2)
    set_flag b Facet.cf (fcmp FloatPredicate.ult op1 op2)
    set_flag b Facet.pf (fcmp FloatPredicate.uno op1 op2)
    set_flag b Facet.af (const_int 1 0)
    set_flag b Facet.of (const_int 1 0)
    set_flag b Facet.sf (const_int 1 0)

  -- Lifter::LiftSseCmp
  unfoldable pub lift_sse_cmp : Instr → Facet → Lift V (Unit {0})
  lift_sse_cmp inst op_type = do
    imm ← checked (imm? (op inst 2))
    pred ← checked (cmp_predicate imm)
    op1 ← op_load_aligned b cfg (op inst 0) op_type align_max
    op2 ← op_load_aligned b cfg (op inst 1) op_type align_max
    store_vec b cfg (op inst 0) (cast CastOp.sext (fcmp pred op1 op2) (mask_type (ty op1)))

  -- Lifter::LiftSseMinmax
  unfoldable pub lift_sse_minmax : Instr → FloatPredicate → Facet → Lift V (Unit {0})
  lift_sse_minmax inst pred op_type = do
    op1 ← op_load_aligned b cfg (op inst 0) op_type align_max
    op2 ← op_load_aligned b cfg (op inst 1) op_type align_max
    store_vec b cfg (op inst 0) (select (fcmp pred op1 op2) op1 op2)

  -- Lifter::LiftSseSqrt
  unfoldable pub lift_sse_sqrt : Instr → Facet → Lift V (Unit {0})
  lift_sse_sqrt inst op_type = do
    op1 ← op_load b cfg (op inst 1) op_type
    store_vec b cfg (op inst 0) (intrinsic Intrinsic.sqrt (op1 ∷ []))

  -- The branches of LiftSseCvt on the type of the result.
  unfoldable pub store_converted : Instr → IrType → V → Lift V (Unit {0})
  store_converted inst (int w) v = op_store_gp b cfg (op inst 0) v
  store_converted inst float v = store_vec b cfg (op inst 0) v
  store_converted inst double v = store_vec b cfg (op inst 0) v
  store_converted inst (vector t n) v =
      if primitive_bits (vector t n) == 64
      then store_vec b cfg (op inst 0) (shuffle v (null (vector t n)) (0 ∷ 1 ∷ 2 ∷ 3 ∷ []))
      else if primitive_bits (vector t n) == 128
      then store_vec b cfg (op inst 0) v
      else fail
  store_converted inst t v = fail

  -- Lifter::LiftSseCvt
  unfoldable pub lift_sse_cvt : Instr → Facet → Facet → Lift V (Unit {0})
  unfolding store_converted
  lift_sse_cvt inst src_type dst_type = do
    dst_facet ← checked (
        if facet_eq dst_type Facet.i then resolve dst_type (op_bits (op inst 0)) else some dst_type)
    dst_ty ← checked (facet_type dst_facet)
    src ← op_load b cfg (op inst 1) src_type
    store_converted inst dst_ty (cast CastOp.signed_convert src dst_ty)
