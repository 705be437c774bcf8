-- ===== src/Lifter/Sse/Shuffle.antt =====
-- src/lifter-sse.cc: instructions that move elements of vectors.
use rellume.Prelude.{ℕ, ◌/◌, ◌%◌, ◌^◌, ◌==◌, if◌then◌else◌, Bool, true, false, bit_and}
use rellume.Facet.{Facet}
use rellume.Register.{gp_reg}
use rellume.Instr.{Instr, InstrType, Op, reg_op, gpl, op, imm?, is_reg}
use rellume.Ir.{Builder, int, CastOp}
use rellume.Lifter.Monad.{Lift, ◌>>=◌, pure, fail, checked, Config}
use rellume.Lifter.Operand.{align_max, op_load, op_store_gp, store_gp_reg}
use rellume.Lifter.Vector.{op_load_aligned, store_vec}
use rellume.Lifter.Sse.Masks.{
  unpack_mask, shufpd_mask, shufps_mask, pshufd_mask, pshufw_mask, insertps_mask, byte_shift,
  shift_bytes_mask,
}

abbrev pub is_psrldq : InstrType → Bool
is_psrldq InstrType.sse_psrldq = true
is_psrldq t = false

module _ {V : Type 0} (b : Builder V) (cfg : Config V) where
  open b use {ty, null, cast, extract_element, insert_element, shuffle}

  -- Lifter::LiftSseUnpck
  unfoldable pub lift_sse_unpck : Instr → Facet → Lift V (Unit {0})
  lift_sse_unpck inst op_type = do
    op1 ← op_load b cfg (op inst 0) op_type
    op2 ← op_load_aligned b cfg (op inst 1) op_type align_max
    mask ← checked (unpack_mask inst.ty)
    store_vec b cfg (op inst 0) (shuffle op1 op2 mask)

  -- Lifter::LiftSseShufpd and LiftSseShufps
  unfoldable pub lift_sse_shufpd : Instr → Lift V (Unit {0})
  lift_sse_shufpd inst = do
    imm ← checked (imm? (op inst 2))
    op1 ← op_load b cfg (op inst 0) Facet.vf64
    op2 ← op_load_aligned b cfg (op inst 1) Facet.vf64 align_max
    store_vec b cfg (op inst 0) (shuffle op1 op2 (shufpd_mask imm))

  unfoldable pub lift_sse_shufps : Instr → Lift V (Unit {0})
  lift_sse_shufps inst = do
    imm ← checked (imm? (op inst 2))
    op1 ← op_load b cfg (op inst 0) Facet.vf32
    op2 ← op_load_aligned b cfg (op inst 1) Facet.vf32 align_max
    store_vec b cfg (op inst 0) (shuffle op1 op2 (shufps_mask imm))

  -- Lifter::LiftSsePshufd
  unfoldable pub lift_sse_pshufd : Instr → Lift V (Unit {0})
  lift_sse_pshufd inst = do
    imm ← checked (imm? (op inst 2))
    src ← op_load_aligned b cfg (op inst 1) Facet.vi32 align_max
    store_vec b cfg (op inst 0) (shuffle src src (pshufd_mask imm))

  -- Lifter::LiftSsePshufw
  unfoldable pub lift_sse_pshufw : Instr → ℕ → Lift V (Unit {0})
  lift_sse_pshufw inst off = do
    imm ← checked (imm? (op inst 2))
    src ← op_load_aligned b cfg (op inst 1) Facet.vi16 align_max
    store_vec b cfg (op inst 0) (shuffle src src (pshufw_mask imm off))

  -- The element that INSERTPS takes, from a register or from memory.
  unfoldable pub insertps_source : Op → ℕ → Lift V V
  insertps_source o count_s =
      if is_reg o
      then (do src ← op_load b cfg o Facet.v4f32; pure (extract_element src count_s))
      else op_load b cfg o Facet.f32

  -- Lifter::LiftSseInsertps
  unfoldable pub lift_sse_insertps : Instr → Lift V (Unit {0})
  unfolding insertps_source
  lift_sse_insertps inst = do
    imm ← checked (imm? (op inst 2))
    dst ← op_load b cfg (op inst 0) Facet.v4f32
    src ← insertps_source (op inst 1) (imm / 2 ^ 6 % 4)
    let full = insert_element dst src (imm / 2 ^ 4 % 4)
    let zmask = imm % 2 ^ 4
    store_vec b cfg (op inst 0)
        (if zmask == 0 then full else shuffle full (null (ty full)) (insertps_mask zmask))

  -- Lifter::LiftSsePinsr
  unfoldable pub lift_sse_pinsr : Instr → Facet → Facet → ℕ → Lift V (Unit {0})
  lift_sse_pinsr inst vec_op src_op mask = do
    dst ← op_load b cfg (op inst 0) vec_op
    src ← op_load b cfg (op inst 1) src_op
    imm ← checked (imm? (op inst 2))
    store_vec b cfg (op inst 0) (insert_element dst src (bit_and imm mask))

  -- The two branches of LiftSsePextr; a register has to be a general-purpose one.
  unfoldable pub store_extracted : Op → V → Lift V (Unit {0})
  store_extracted (reg_op size r) ext = elim r.rt [
    | gpl ↦ store_gp_reg b cfg (gp_reg (r.ri % 2 ^ 8)) (cast CastOp.zext ext (int 64))
    | _ ↦ fail
  ]
  store_extracted o ext = op_store_gp b cfg o ext

  -- Lifter::LiftSsePextr
  unfoldable pub lift_sse_pextr : Instr → Facet → ℕ → Lift V (Unit {0})
  unfolding store_extracted
  lift_sse_pextr inst vec_op mask = do
    src ← op_load b cfg (op inst 1) vec_op
    imm ← checked (imm? (op inst 2))
    store_extracted (op inst 0) (extract_element src (bit_and imm mask))

  -- Lifter::LiftSsePshiftBytes
  unfoldable pub lift_sse_pshift_bytes : Instr → Lift V (Unit {0})
  lift_sse_pshift_bytes inst = do
    imm ← checked (imm? (op inst 1))
    src ← op_load b cfg (op inst 0) Facet.v16i8
    let zero_vec = null (ty src)
    store_vec b cfg (op inst 0) (
        if is_psrldq inst.ty
        then shuffle src zero_vec (shift_bytes_mask true (byte_shift imm))
        else shuffle zero_vec src (shift_bytes_mask false (byte_shift imm)))
