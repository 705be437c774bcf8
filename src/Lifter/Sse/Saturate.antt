-- ===== src/Lifter/Sse/Saturate.antt =====
-- src/lifter-sse.cc: saturating arithmetic on packed elements.
use rellume.Prelude.{ℕ, ◌-◌, ◌*◌, ◌/◌, ◌^◌, if◌then◌else◌, Bool, Option, none, some}
use rellume.Facet.{Facet}
use rellume.Instr.{Instr, op}
use rellume.Ir.{Builder, IrType, int, vector, vector_parts, BinaryOp, CastOp, Predicate}
use rellume.Lifter.Monad.{Lift, ◌>>=◌, pure, checked, Config}
use rellume.Lifter.Operand.{align_max, op_load}
use rellume.Lifter.Vector.{op_load_aligned, store_vec}
use rellume.Lifter.Sse.Masks.{pack_mask}

-- The least and the greatest value of half the width, as patterns of the whole width.
unfoldable pub saturate_min : ℕ → Bool → ℕ
saturate_min src_size sign = if sign then 2 ^ src_size - 2 ^ (src_size / 2 - 1) else 0

unfoldable pub saturate_max : ℕ → Bool → ℕ
saturate_max src_size sign = if sign then 2 ^ (src_size / 2 - 1) - 1 else 2 ^ (src_size / 2) - 1

-- getTruncatedElementVectorType and getExtendedElementVectorType, with the width of the elements.
abbrev pub int_vector : IrType → Option (ℕ × ℕ)
int_vector (vector (int w) n) = some (w, n)
int_vector t = none

module _ {V : Type 0} (b : Builder V) where
  open b use {ty, icmp, select, cast, bin, integer_value}

  -- SaturateTrunc of a vector type
  unfoldable pub saturate_value : ℕ → IrType → V → Bool → V
  saturate_value src_size dst_ty val sign =
      let minv = integer_value (ty val) (saturate_min src_size sign) in
      let maxv = integer_value (ty val) (saturate_max src_size sign) in
      let low = select (icmp Predicate.slt val minv) minv val in
      cast CastOp.trunc (select (icmp Predicate.sgt low maxv) maxv low) dst_ty

  unfoldable pub saturate_trunc : V → Bool → Lift V V
  unfolding saturate_value
  saturate_trunc val sign = do
    (src_size, elems) ← checked (int_vector (ty val))
    pure (saturate_value src_size (vector (int (src_size / 2)) elems) val sign)

  -- The widened operation of LiftSsePaddsubSaturate.
  unfoldable pub widened_op : BinaryOp → Bool → IrType → V → V → V
  widened_op calc_op sign ext_ty src1 src2 =
      let cast_op = if sign then CastOp.sext else CastOp.zext in
      bin calc_op (cast cast_op src1 ext_ty) (cast cast_op src2 ext_ty)

module _ {V : Type 0} (b : Builder V) (cfg : Config V) where
  open b use {ty, shuffle}

  -- Lifter::LiftSsePaddsubSaturate
  unfoldable pub lift_sse_paddsub_saturate : Instr → BinaryOp → Bool → Facet → Lift V (Unit {0})
  lift_sse_paddsub_saturate inst calc_op sign op_ty = do
    src1 ← op_load b cfg (op inst 0) op_ty
    src2 ← op_load b cfg (op inst 1) op_ty
    (src_size, elems) ← checked (int_vector (ty src1))
    let res = widened_op b calc_op sign (vector (int (src_size * 2)) elems) src1 src2
    narrow ← saturate_trunc b res sign
    store_vec b cfg (op inst 0) narrow

  -- Lifter::LiftSsePack
  unfoldable pub lift_sse_pack : Instr → Facet → Bool → Lift V (Unit {0})
  lift_sse_pack inst src_type sign = do
    op1 ← op_load_aligned b cfg (op inst 0) src_type align_max
    op2 ← op_load_aligned b cfg (op inst 1) src_type align_max
    op1 ← saturate_trunc b op1 sign
    op2 ← saturate_trunc b op2 sign
    (_, src_elems) ← checked (vector_parts (ty op1))
    store_vec b cfg (op inst 0) (shuffle op1 op2 (pack_mask src_elems))
