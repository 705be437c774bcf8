-- ===== src/Lifter/Sse/Move.antt =====
-- src/lifter-sse.cc: moves of scalars and vectors.
use rellume.Prelude.{◌/◌, if◌then◌else◌, ◌&&◌, Bool, true, false, [], ◌∷◌}
use rellume.Facet.{Facet}
use rellume.Instr.{Instr, InstrType, op, is_reg, is_mem, is_vec_reg}
use rellume.Ir.{Builder, vector, primitive_bits}
use rellume.Lifter.Monad.{Lift, ◌>>=◌, fail, create_store, Config}
use rellume.Lifter.Operand.{Alignment, align_imp, align_max, op_load, op_store_gp}
use rellume.Lifter.Vector.{op_load_aligned, operand_addr, store_vec, store_vec_at}

-- Alignment as a bool: ALIGN_MAX is 0.
abbrev pub is_nonzero : Alignment → Bool
is_nonzero align_max = false
is_nonzero alignment = true

abbrev is_movlps : InstrType → Bool
is_movlps InstrType.sse_movlps = true
is_movlps t = false

module _ {V : Type 0} (b : Builder V) (cfg : Config V) where
  open b use {ty, null, extract_element, insert_element, shuffle}

  -- A scalar at the begin of a vector of zeros.
  abbrev pub low_of_zero : V → V
  low_of_zero v = insert_element (null (vector (ty v) (128 / primitive_bits (ty v)))) v 0

  -- Lifter::LiftSseMovq
  unfoldable pub lift_sse_movq : Instr → Facet → Lift V (Unit {0})
  lift_sse_movq inst type = do
    op1 ← op_load b cfg (op inst 1) type
    if is_vec_reg (op inst 0)
        then store_vec b cfg (op inst 0) (low_of_zero op1)
        else op_store_gp b cfg (op inst 0) op1

  -- Lifter::LiftSseMovScalar
  unfoldable pub lift_sse_mov_scalar : Instr → Facet → Lift V (Unit {0})
  lift_sse_mov_scalar inst facet = do
    src ← op_load b cfg (op inst 1) facet
    store_vec b cfg (op inst 0) (if is_mem (op inst 1) then low_of_zero src else src)

  -- Lifter::LiftSseMovdq. The alignment is passed in the place of OpStoreVec's `avx`.
  unfoldable pub lift_sse_movdq : Instr → Facet → Alignment → Lift V (Unit {0})
  lift_sse_movdq inst facet alignment = do
    v ← op_load_aligned b cfg (op inst 1) facet alignment
    store_vec_at b cfg (op inst 0) v (is_nonzero alignment) align_imp

  -- Lifter::LiftSseMovntStore; the hint is metadata.
  unfoldable pub lift_sse_movnt_store : Instr → Facet → Lift V (Unit {0})
  lift_sse_movnt_store inst facet = do
    value ← op_load_aligned b cfg (op inst 1) facet align_max
    addr ← operand_addr b cfg (op inst 0) (ty value)
    create_store b value addr (primitive_bits (ty value) / 8)

  -- The high half of a vector of four elements, as one of two.
  abbrev high_half : V → V
  high_half v = shuffle v (null (ty v)) (2 ∷ 3 ∷ [])

  -- Lifter::LiftSseMovlp
  unfoldable pub lift_sse_movlp : Instr → Lift V (Unit {0})
  lift_sse_movlp inst =
      if is_reg (op inst 0) && is_reg (op inst 1)
      then (if is_movlps inst.ty
          then (do
            op2 ← op_load b cfg (op inst 1) Facet.v4f32
            store_vec b cfg (op inst 0) (high_half op2))
          else fail)
      else do
        op2 ← op_load b cfg (op inst 1) (if is_movlps inst.ty then Facet.v2f32 else Facet.f64)
        store_vec b cfg (op inst 0) op2

  -- Lifter::LiftSseMovhps
  unfoldable pub lift_sse_movhps : Instr → Lift V (Unit {0})
  lift_sse_movhps inst =
      if is_mem (op inst 0)
      then (do
        op2 ← op_load b cfg (op inst 1) Facet.v4f32
        store_vec b cfg (op inst 0) (high_half op2))
      else do
        op1 ← op_load b cfg (op inst 0) Facet.v4f32
        op2 ← op_load b cfg (op inst 1) Facet.v2f32
        let wide = shuffle op2 (null (ty op2)) (0 ∷ 1 ∷ 2 ∷ 3 ∷ [])
        store_vec b cfg (op inst 0) (shuffle op1 wide (0 ∷ 1 ∷ 4 ∷ 5 ∷ []))

  -- Lifter::LiftSseMovhpd
  unfoldable pub lift_sse_movhpd : Instr → Lift V (Unit {0})
  lift_sse_movhpd inst =
      if is_mem (op inst 0)
      then (do
        op2 ← op_load b cfg (op inst 1) Facet.v2f64
        store_vec b cfg (op inst 0) (extract_element op2 1))
      else do
        op1 ← op_load b cfg (op inst 0) Facet.v2f64
        op2 ← op_load b cfg (op inst 1) Facet.f64
        store_vec b cfg (op inst 0) (insert_element op1 op2 1)
