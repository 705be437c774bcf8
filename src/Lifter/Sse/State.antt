-- ===== src/Lifter/Sse/State.antt =====
-- src/lifter-sse.cc: fences, prefetches and the state of the floating-point unit.
use rellume.Prelude.{ℕ, ◌+◌, ◌*◌, List, [], ◌∷◌}
use rellume.Facet.{Facet}
use rellume.Register.{vec_reg}
use rellume.Instr.{Instr, op}
use rellume.Ir.{Builder, int, ptr, CastOp}
use rellume.RegFile.Access.{below}
use rellume.Lifter.Monad.{
  Lift, ◌>>=◌, ◌>>◌, skip, get_reg, set_reg, create_load, create_store, emit, Config, fence,
  prefetch, memset, assume_aligned,
}
use rellume.Lifter.Operand.{op_store_gp}
use rellume.Lifter.Vector.{operand_addr}

module _ {V : Type 0} (b : Builder V) (cfg : Config V) where
  open b use {const_int, cast, gep}

  -- Lifter::LiftFence
  unfoldable pub lift_fence : Instr → Lift V (Unit {0})
  lift_fence inst = emit b fence

  -- Lifter::LiftPrefetch
  unfoldable pub lift_prefetch : Instr → ℕ → ℕ → Lift V (Unit {0})
  lift_prefetch inst rw locality = do
    addr ← operand_addr b cfg (op inst 0) (int 8)
    emit b (prefetch addr rw locality)

  -- The place of a vector register in the buffer of FXSAVE.
  abbrev pub fx_slot : V → ℕ → V
  fx_slot buf i = cast CastOp.bitcast (gep buf (const_int 32 (0xa0 + 0x10 * i))) (ptr (int 128) 0)

  unfoldable pub fx_save_regs : V → List ℕ → Lift V (Unit {0})
  fx_save_regs buf [] = skip
  fx_save_regs buf (i ∷ rest) = do
    val ← get_reg b (vec_reg i) Facet.i128
    create_store b val (fx_slot buf i) 0
    fx_save_regs buf rest

  -- Lifter::LiftFxsave
  unfoldable pub lift_fxsave : Instr → Lift V (Unit {0})
  unfolding fx_save_regs
  lift_fxsave inst = do
    buf ← operand_addr b cfg (op inst 0) (int 8)
    emit b (assume_aligned buf 16)
    emit b (memset buf 0xa0 16)
    fx_save_regs buf (below 16)

  unfoldable pub fx_restore_regs : V → List ℕ → Lift V (Unit {0})
  fx_restore_regs buf [] = skip
  fx_restore_regs buf (i ∷ rest) = do
    val ← create_load b (int 128) (fx_slot buf i) 0
    set_reg b (vec_reg i) Facet.i128 val
    fx_restore_regs buf rest

  -- Lifter::LiftFxrstor
  unfoldable pub lift_fxrstor : Instr → Lift V (Unit {0})
  unfolding fx_restore_regs
  lift_fxrstor inst = do
    buf ← operand_addr b cfg (op inst 0) (int 8)
    emit b (assume_aligned buf 16)
    fx_restore_regs buf (below 16)

  -- Lifter::LiftFstcw
  unfoldable pub lift_fstcw : Instr → Lift V (Unit {0})
  lift_fstcw inst = op_store_gp b cfg (op inst 0) (const_int 16 0x37f)

  -- Lifter::LiftFstsw
  unfoldable pub lift_fstsw : Instr → Lift V (Unit {0})
  lift_fstsw inst = op_store_gp b cfg (op inst 0) (const_int 16 0)

  -- Lifter::LiftStmxcsr
  unfoldable pub lift_stmxcsr : Instr → Lift V (Unit {0})
  lift_stmxcsr inst = op_store_gp b cfg (op inst 0) (const_int 32 0x1f80)
