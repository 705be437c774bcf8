-- ===== src/Lifter/Control.antt =====
-- src/lifter-private.h and src/lifter-gp.cc: stack instructions, jumps, calls and returns.
use rellume.Prelude.{ℕ, ◌*◌, if◌then◌else◌, Bool, true, false, Option, none, some, List, [], ◌∷◌}
use rellume.Facet.{Facet, in_bits}
use rellume.Register.{rcx, rsp, rbp, ip_reg, gp_reg}
use rellume.Instr.{Instr, InstrType, Op, imm_op, op, is_present}
use rellume.Ir.{Builder, int, ptr, BinaryOp, CastOp, Predicate}
use rellume.Lifter.Monad.{
  Lift, ◌>>=◌, ◌>>◌, pure, skip, checked, get_reg, set_reg, set_reg_ptr, get_flag, set_flag_undef,
  Config,
}
use rellume.Lifter.Operand.{
  align_none, op_load, op_load_at, op_store_gp, store_gp_reg, stack_push, stack_pop,
}
use rellume.Lifter.Flags.{Condition, flag_cond, flag_as_reg, flag_from_reg}
use rellume.Lifter.Monad.{Function}
use rellume.CallConv.{call_conv, return_conv}

abbrev imm_of : Op → Option ℕ
imm_of (imm_op size v) = some v
imm_of o = none

-- FDI_LOOP, FDI_LOOPZ and FDI_LOOPNZ
abbrev loops_while : InstrType → Option Bool
loops_while InstrType.loopz = some true
loops_while InstrType.loopnz = some false
loops_while t = none

abbrev status_flags : List Facet
status_flags = Facet.of ∷ Facet.sf ∷ Facet.zf ∷ Facet.af ∷ Facet.pf ∷ Facet.cf ∷ []

module _ {V : Type 0} (b : Builder V) (cfg : Config V) where
  open b use {ty, const_int, bin, icmp, select, cast, gep, create_not}

  -- LifterBase::CallExternalFunction; inlining the call is left to LLVM.
  unfoldable pub call_external_function : Function → Lift V (Unit {0})
  call_external_function fn = call_conv b cfg fn.conv fn false

  -- Lifter::LiftPush
  unfoldable pub lift_push : Instr → Lift V (Unit {0})
  lift_push inst = do val ← op_load b cfg (op inst 0) Facet.i; stack_push b cfg val

  -- Lifter::LiftPushf
  unfoldable pub lift_pushf : Instr → Lift V (Unit {0})
  lift_pushf inst = do val ← flag_as_reg b (inst.opsz * 8); stack_push b cfg val

  -- Lifter::LiftPop
  unfoldable pub lift_pop : Instr → Lift V (Unit {0})
  lift_pop inst = do val ← stack_pop b cfg rsp; op_store_gp b cfg (op inst 0) val

  -- Lifter::LiftPopf
  unfoldable pub lift_popf : Instr → Lift V (Unit {0})
  lift_popf inst = do val ← stack_pop b cfg rsp; flag_from_reg b val

  -- Lifter::LiftLeave
  unfoldable pub lift_leave : Instr → Lift V (Unit {0})
  lift_leave inst = do val ← stack_pop b cfg rbp; store_gp_reg b cfg rbp val

  -- Lifter::LiftJmp
  unfoldable pub lift_jmp : Instr → Lift V (Unit {0})
  lift_jmp inst = do
    target ← op_load_at b cfg (op inst 0) Facet.i64 align_none cfg.fadec.reg_ds
    set_reg b ip_reg Facet.i64 target

  -- The jump that is taken if a condition holds.
  unfoldable pub jump_if : Instr → V → Lift V (Unit {0})
  jump_if inst cond = do
    target ← op_load b cfg (op inst 0) Facet.i64
    next ← get_reg b ip_reg Facet.i64
    set_reg b ip_reg Facet.i64 (select cond target next)

  -- Lifter::LiftJcc
  unfoldable pub lift_jcc : Instr → Condition → Lift V (Unit {0})
  unfolding jump_if
  lift_jcc inst cond = do c ← flag_cond b cond; jump_if inst c

  -- Lifter::LiftJcxz
  unfoldable pub lift_jcxz : Instr → Lift V (Unit {0})
  unfolding jump_if
  lift_jcxz inst = do
    let sz = inst.addrsz * 8
    f ← checked (in_bits sz)
    cx ← get_reg b rcx f
    jump_if inst (icmp Predicate.eq cx (const_int sz 0))

  -- The condition of LiftLoop on the zero flag.
  unfoldable pub loop_cond : InstrType → V → Lift V V
  loop_cond t cond = elim (loops_while t) [
    | none ↦ pure cond
    | some wanted ↦ do
      zf ← get_flag b Facet.zf
      pure (bin BinaryOp.and cond (if wanted then zf else create_not zf))
  ]

  -- Lifter::LiftLoop
  unfoldable pub lift_loop : Instr → Lift V (Unit {0})
  unfolding jump_if loop_cond
  lift_loop inst = do
    let sz = inst.addrsz * 8
    f ← checked (in_bits sz)
    cx ← get_reg b rcx f
    let count = bin BinaryOp.sub cx (const_int sz 1)
    store_gp_reg b cfg rcx count
    cond ← loop_cond inst.ty (icmp Predicate.ne count (const_int sz 0))
    jump_if inst cond

  unfoldable pub clobber_flags : Lift V (Unit {0})
  clobber_flags = if cfg.call_ret_clobber_flags then set_flag_undef b status_flags else skip

  -- Lifter::LiftCall
  unfoldable pub lift_call : Instr → Lift V (Unit {0})
  unfolding clobber_flags call_external_function
  lift_call inst = do
    clobber_flags
    new_rip ← op_load_at b cfg (op inst 0) Facet.i align_none cfg.fadec.reg_ds
    ret_addr ← get_reg b ip_reg Facet.i64
    stack_push b cfg ret_addr
    set_reg b ip_reg Facet.i64 new_rip
    elim cfg.call_function [
      | none ↦ skip
      | some fn ↦ do
        call_external_function fn
        cont_addr ← get_reg b ip_reg Facet.i64
        let eq = icmp Predicate.eq cont_addr ret_addr
        set_reg b ip_reg Facet.i64 (select eq ret_addr cont_addr)
    ]

  -- The immediate of RET frees stack space behind the return address.
  unfoldable pub free_stack : Op → Lift V (Unit {0})
  free_stack o =
      if is_present o
      then (do
        imm ← checked (imm_of o)
        sp ← get_reg b rsp Facet.ptr
        set_reg_ptr b rsp (gep (cast CastOp.bitcast sp (ptr (int 8) 0)) (const_int 64 imm)))
      else skip

  -- Lifter::LiftRet, with ForceReturn
  unfoldable pub lift_ret : Instr → Lift V (Unit {0})
  unfolding clobber_flags free_stack
  lift_ret inst = do
    clobber_flags
    target ← stack_pop b cfg rsp
    set_reg b ip_reg Facet.i64 target
    free_stack (op inst 0)
    elim cfg.call_function [ none ↦ skip | some fn ↦ return_conv b cfg cfg.callconv ]

  -- Lifter::LiftSyscall
  unfoldable pub lift_syscall : Instr → Lift V (Unit {0})
  unfolding call_external_function
  lift_syscall inst = do
    next ← get_reg b ip_reg Facet.i64
    set_reg b rcx Facet.i64 next
    flags ← flag_as_reg b 64
    set_reg b (gp_reg 11) Facet.i64 flags
    elim cfg.syscall_implementation [ none ↦ skip | some fn ↦ call_external_function fn ]
