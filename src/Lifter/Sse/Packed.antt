-- ===== src/Lifter/Sse/Packed.antt =====
-- src/lifter-sse.cc: integer arithmetic on packed elements.
use rellume.Prelude.{ℕ, ◌-◌, ◌*◌, if◌then◌else◌, Bool, true, false, [], ◌∷◌}
use rellume.Facet.{Facet}
use rellume.Instr.{Instr, op}
use rellume.Ir.{Builder, int, vector, vector_parts, int_width, BinaryOp, CastOp, Predicate}
use rellume.Lifter.Monad.{Lift, ◌>>=◌, checked, Config}
use rellume.Lifter.Operand.{align_max, op_load, op_store_gp}
use rellume.Lifter.Vector.{op_load_aligned, store_vec}

abbrev pub is_ashr : BinaryOp → Bool
is_ashr BinaryOp.ashr = true
is_ashr o = false

module _ {V : Type 0} (b : Builder V) where
  open b use {ty, null, const_int, bin, icmp, select, cast, shuffle, splat}

  -- The amount of an arithmetic shift is at most the number of the sign bit.
  unfoldable pub shift_amount : BinaryOp → ℕ → V → V
  shift_amount o elem_size shift =
      if is_ashr o
      then (let last = const_int 64 (elem_size - 1) in
          select (icmp Predicate.ugt shift last) last shift)
      else shift

  -- A logical shift by the size of an element or more gives zeros.
  unfoldable pub shift_result : BinaryOp → ℕ → V → V → V → V
  shift_result o elem_size src shift res =
      if is_ashr o
      then res
      else select (icmp Predicate.ult shift (const_int 64 elem_size)) res (null (ty src))

  -- The value that LiftSsePshiftElement stores.
  unfoldable pub shift_elements : BinaryOp → ℕ → ℕ → V → V → V
  unfolding shift_amount shift_result
  shift_elements o elem_size elem_cnt src shift =
      let amount = shift_amount o elem_size shift in
      let shift_vec = splat elem_cnt (cast CastOp.trunc amount (int elem_size)) in
      shift_result o elem_size src amount (bin o src shift_vec)

  -- The value that LiftSsePavg stores.
  unfoldable pub average : ℕ → ℕ → V → V → V
  average elem_size elem_cnt src1 src2 =
      let ext_ty = vector (int (elem_size * 2)) elem_cnt in
      let ones = splat elem_cnt (const_int (elem_size * 2) 1) in
      let ext1 = cast CastOp.zext src1 ext_ty in
      let ext2 = cast CastOp.zext src2 ext_ty in
      let sum = bin BinaryOp.add (bin BinaryOp.add ext1 ext2) ones in
      cast CastOp.trunc (bin BinaryOp.lshr sum ones) (ty src1)

  -- The value that LiftSsePmulhw stores.
  unfoldable pub high_product : CastOp → ℕ → V → V → V
  high_product cast_op elem_cnt src1 src2 =
      let ext_ty = vector (int 32) elem_cnt in
      let product = bin BinaryOp.mul (cast cast_op src1 ext_ty) (cast cast_op src2 ext_ty) in
      let shift = splat elem_cnt (const_int 32 16) in
      cast CastOp.trunc (bin BinaryOp.lshr product shift) (ty src1)

  -- The even elements of LiftSsePmuludq, as numbers of 64 bits.
  unfoldable pub even_elements : V → V
  even_elements src = cast CastOp.zext (shuffle src src (0 ∷ 2 ∷ [])) (vector (int 64) 2)

module _ {V : Type 0} (b : Builder V) (cfg : Config V) where
  open b use {ty, null, bin, icmp, select, cast}

  -- Lifter::LiftSsePshiftElement
  unfoldable pub lift_sse_pshift_element : Instr → BinaryOp → Facet → Lift V (Unit {0})
  lift_sse_pshift_element inst o op_type = do
    src ← op_load b cfg (op inst 0) op_type
    shift ← op_load b cfg (op inst 1) Facet.i64
    (elem_ty, elem_cnt) ← checked (vector_parts (ty src))
    elem_size ← checked (int_width elem_ty)
    store_vec b cfg (op inst 0) (shift_elements b o elem_size elem_cnt src shift)

  -- Lifter::LiftSsePavg
  unfoldable pub lift_sse_pavg : Instr → Facet → Lift V (Unit {0})
  lift_sse_pavg inst op_type = do
    src1 ← op_load b cfg (op inst 0) op_type
    src2 ← op_load b cfg (op inst 1) op_type
    (elem_ty, elem_cnt) ← checked (vector_parts (ty src1))
    elem_size ← checked (int_width elem_ty)
    store_vec b cfg (op inst 0) (average b elem_size elem_cnt src1 src2)

  -- Lifter::LiftSsePmulhw
  unfoldable pub lift_sse_pmulhw : Instr → CastOp → Lift V (Unit {0})
  lift_sse_pmulhw inst cast_op = do
    src1 ← op_load b cfg (op inst 0) Facet.vi16
    src2 ← op_load b cfg (op inst 1) Facet.vi16
    (_, elem_cnt) ← checked (vector_parts (ty src1))
    store_vec b cfg (op inst 0) (high_product b cast_op elem_cnt src1 src2)

  -- Lifter::LiftSsePmuludq
  unfoldable pub lift_sse_pmuludq : Instr → Lift V (Unit {0})
  lift_sse_pmuludq inst = do
    src1 ← op_load b cfg (op inst 0) Facet.vi32
    src2 ← op_load b cfg (op inst 1) Facet.vi32
    store_vec b cfg (op inst 0) (bin BinaryOp.mul (even_elements b src1) (even_elements b src2))

  -- Lifter::LiftSsePcmp
  unfoldable pub lift_sse_pcmp : Instr → Predicate → Facet → Lift V (Unit {0})
  lift_sse_pcmp inst pred op_type = do
    op1 ← op_load_aligned b cfg (op inst 0) op_type align_max
    op2 ← op_load_aligned b cfg (op inst 1) op_type align_max
    store_vec b cfg (op inst 0) (cast CastOp.sext (icmp pred op1 op2) (ty op1))

  -- Lifter::LiftSsePminmax
  unfoldable pub lift_sse_pminmax : Instr → Predicate → Facet → Lift V (Unit {0})
  lift_sse_pminmax inst pred op_type = do
    op1 ← op_load_aligned b cfg (op inst 0) op_type align_max
    op2 ← op_load_aligned b cfg (op inst 1) op_type align_max
    store_vec b cfg (op inst 0) (select (icmp pred op1 op2) op1 op2)

  -- Lifter::LiftSseMovmsk
  unfoldable pub lift_sse_movmsk : Instr → Facet → Lift V (Unit {0})
  lift_sse_movmsk inst op_type = do
    src ← op_load_aligned b cfg (op inst 1) op_type align_max
    (_, bit_count) ← checked (vector_parts (ty src))
    let bitvec = icmp Predicate.slt src (null (ty src))
    let bits = cast CastOp.bitcast bitvec (int bit_count)
    op_store_gp b cfg (op inst 0) (cast CastOp.zext bits (int 64))
