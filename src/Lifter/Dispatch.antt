-- ===== src/Lifter/Dispatch.antt =====
-- src/lifter.cc: Lifter::Lift. The string instructions, which add basic blocks, are handed to a
-- parameter.
use rellume.Prelude.{Bool, true, false, none, some}
use rellume.Facet.{Facet}
use rellume.Register.{rax}
use rellume.Instr.{Instr, InstrType}
use rellume.Ir.{Builder, BinaryOp, CastOp}
use rellume.Lifter.Monad.{Lift, ◌>>=◌, ◌>>◌, pure, skip, get_reg, get_flag, set_flag, Config}
use rellume.Lifter.Operand.{store_gp_facet}
use rellume.Lifter.Flags.{Condition, flag_as_reg, flag_from_reg}
use rellume.Instr.{end}
use rellume.Lifter.Monad.{set_ip}
use rellume.Lifter.Action.{Action, unknown, step}
use rellume.Lifter.Sse.Select.{sse_action}
use rellume.Lifter.Arith.{
  lift_movgp, lift_arith, lift_cmpxchg, lift_xchg, lift_and_or_xor, lift_not, lift_neg,
  lift_inc_dec,
}
use rellume.Lifter.Shift.{lift_shift, lift_shiftdouble, lift_rotate, lift_mul, lift_div}
use rellume.Lifter.Bits.{
  lift_lea, lift_xlat, lift_cmovcc, lift_setcc, lift_cext, lift_csep, lift_bitscan, lift_bittest,
  lift_movbe, lift_bswap,
}
use rellume.Lifter.Control.{
  call_external_function, lift_push, lift_pushf, lift_pop, lift_popf, lift_leave, lift_jmp,
  lift_jcc, lift_jcxz, lift_loop, lift_call, lift_ret, lift_syscall,
}

module _ {V : Type 0} (b : Builder V) (cfg : Config V) (inst : Instr) where
  -- LAHF and SAHF
  unfoldable pub lift_lahf : Lift V (Unit {0})
  lift_lahf = do flags ← flag_as_reg b 8; store_gp_facet b cfg rax Facet.i8h flags

  unfoldable pub lift_sahf : Lift V (Unit {0})
  lift_sahf = do val ← get_reg b rax Facet.i8h; flag_from_reg b val

  unfoldable pub lift_cmc : Lift V (Unit {0})
  lift_cmc = do cf ← get_flag b Facet.cf; set_flag b Facet.cf (b.create_not cf)

  -- Jumps; the rows of the SSE instructions follow.
  unfoldable pub jump_action : InstrType → Action V
  jump_action InstrType.jmp = step (lift_jmp b cfg inst)
  jump_action InstrType.jo = step (lift_jcc b cfg inst Condition.o)
  jump_action InstrType.jno = step (lift_jcc b cfg inst Condition.no)
  jump_action InstrType.jc = step (lift_jcc b cfg inst Condition.c)
  jump_action InstrType.jnc = step (lift_jcc b cfg inst Condition.nc)
  jump_action InstrType.jz = step (lift_jcc b cfg inst Condition.z)
  jump_action InstrType.jnz = step (lift_jcc b cfg inst Condition.nz)
  jump_action InstrType.jbe = step (lift_jcc b cfg inst Condition.be)
  jump_action InstrType.ja = step (lift_jcc b cfg inst Condition.a)
  jump_action InstrType.js = step (lift_jcc b cfg inst Condition.s)
  jump_action InstrType.jns = step (lift_jcc b cfg inst Condition.ns)
  jump_action InstrType.jp = step (lift_jcc b cfg inst Condition.p)
  jump_action InstrType.jnp = step (lift_jcc b cfg inst Condition.np)
  jump_action InstrType.jl = step (lift_jcc b cfg inst Condition.l)
  jump_action InstrType.jge = step (lift_jcc b cfg inst Condition.ge)
  jump_action InstrType.jle = step (lift_jcc b cfg inst Condition.le)
  jump_action InstrType.jg = step (lift_jcc b cfg inst Condition.g)
  jump_action InstrType.jcxz = step (lift_jcxz b cfg inst)
  jump_action InstrType.loop = step (lift_loop b cfg inst)
  jump_action InstrType.loopz = step (lift_loop b cfg inst)
  jump_action InstrType.loopnz = step (lift_loop b cfg inst)
  jump_action t = sse_action b cfg inst t

  -- CMOVcc and SETcc
  unfoldable pub cond_action : InstrType → Action V
  cond_action InstrType.cmovo = step (lift_cmovcc b cfg inst Condition.o)
  cond_action InstrType.cmovno = step (lift_cmovcc b cfg inst Condition.no)
  cond_action InstrType.cmovc = step (lift_cmovcc b cfg inst Condition.c)
  cond_action InstrType.cmovnc = step (lift_cmovcc b cfg inst Condition.nc)
  cond_action InstrType.cmovz = step (lift_cmovcc b cfg inst Condition.z)
  cond_action InstrType.cmovnz = step (lift_cmovcc b cfg inst Condition.nz)
  cond_action InstrType.cmovbe = step (lift_cmovcc b cfg inst Condition.be)
  cond_action InstrType.cmova = step (lift_cmovcc b cfg inst Condition.a)
  cond_action InstrType.cmovs = step (lift_cmovcc b cfg inst Condition.s)
  cond_action InstrType.cmovns = step (lift_cmovcc b cfg inst Condition.ns)
  cond_action InstrType.cmovp = step (lift_cmovcc b cfg inst Condition.p)
  cond_action InstrType.cmovnp = step (lift_cmovcc b cfg inst Condition.np)
  cond_action InstrType.cmovl = step (lift_cmovcc b cfg inst Condition.l)
  cond_action InstrType.cmovge = step (lift_cmovcc b cfg inst Condition.ge)
  cond_action InstrType.cmovle = step (lift_cmovcc b cfg inst Condition.le)
  cond_action InstrType.cmovg = step (lift_cmovcc b cfg inst Condition.g)
  cond_action InstrType.seto = step (lift_setcc b cfg inst Condition.o)
  cond_action InstrType.setno = step (lift_setcc b cfg inst Condition.no)
  cond_action InstrType.setc = step (lift_setcc b cfg inst Condition.c)
  cond_action InstrType.setnc = step (lift_setcc b cfg inst Condition.nc)
  cond_action InstrType.setz = step (lift_setcc b cfg inst Condition.z)
  cond_action InstrType.setnz = step (lift_setcc b cfg inst Condition.nz)
  cond_action InstrType.setbe = step (lift_setcc b cfg inst Condition.be)
  cond_action InstrType.seta = step (lift_setcc b cfg inst Condition.a)
  cond_action InstrType.sets = step (lift_setcc b cfg inst Condition.s)
  cond_action InstrType.setns = step (lift_setcc b cfg inst Condition.ns)
  cond_action InstrType.setp = step (lift_setcc b cfg inst Condition.p)
  cond_action InstrType.setnp = step (lift_setcc b cfg inst Condition.np)
  cond_action InstrType.setl = step (lift_setcc b cfg inst Condition.l)
  cond_action InstrType.setge = step (lift_setcc b cfg inst Condition.ge)
  cond_action InstrType.setle = step (lift_setcc b cfg inst Condition.le)
  cond_action InstrType.setg = step (lift_setcc b cfg inst Condition.g)
  cond_action t = jump_action t

  -- The switch of Lift.
  unfoldable pub action : InstrType → Action V
  action InstrType.nop = step skip
  action InstrType.rdssp = step skip
  action InstrType.endbr64 = step skip
  action InstrType.bndldx = step skip
  action InstrType.bndmov = step skip
  action InstrType.bndcu = step skip
  action InstrType.bndcl = step skip
  action InstrType.bndstx = step skip
  action InstrType.bndcn = step skip
  action InstrType.bndmk = step skip
  action InstrType.push = step (lift_push b cfg inst)
  action InstrType.pushf = step (lift_pushf b cfg inst)
  action InstrType.popf = step (lift_popf b cfg inst)
  action InstrType.pop = step (lift_pop b cfg inst)
  action InstrType.leave = step (lift_leave b cfg inst)
  action InstrType.call = step (lift_call b cfg inst)
  action InstrType.ret = step (lift_ret b cfg inst)
  action InstrType.syscall = step (lift_syscall b cfg inst)
  action InstrType.lahf = step lift_lahf
  action InstrType.sahf = step lift_sahf
  action InstrType.mov = step (lift_movgp b cfg inst CastOp.sext)
  action InstrType.movabs = step (lift_movgp b cfg inst CastOp.sext)
  action InstrType.movzx = step (lift_movgp b cfg inst CastOp.zext)
  action InstrType.movsx = step (lift_movgp b cfg inst CastOp.sext)
  action InstrType.movnti = step (lift_movgp b cfg inst CastOp.sext)
  action InstrType.movbe = step (lift_movbe b cfg inst)
  action InstrType.add = step (lift_arith b cfg inst false)
  action InstrType.adc = step (lift_arith b cfg inst false)
  action InstrType.sub = step (lift_arith b cfg inst true)
  action InstrType.sbb = step (lift_arith b cfg inst true)
  action InstrType.cmp = step (lift_arith b cfg inst true)
  action InstrType.xadd = step (lift_arith b cfg inst false)
  action InstrType.cmpxchg = step (lift_cmpxchg b cfg inst)
  action InstrType.xchg = step (lift_xchg b cfg inst)
  action InstrType.lea = step (lift_lea b cfg inst)
  action InstrType.xlatb = step (lift_xlat b cfg inst)
  action InstrType.not = step (lift_not b cfg inst)
  action InstrType.neg = step (lift_neg b cfg inst)
  action InstrType.inc = step (lift_inc_dec b cfg inst)
  action InstrType.dec = step (lift_inc_dec b cfg inst)
  action InstrType.and = step (lift_and_or_xor b cfg inst BinaryOp.and true)
  action InstrType.or = step (lift_and_or_xor b cfg inst BinaryOp.or true)
  action InstrType.xor = step (lift_and_or_xor b cfg inst BinaryOp.xor true)
  action InstrType.test = step (lift_and_or_xor b cfg inst BinaryOp.and false)
  action InstrType.imul = step (lift_mul b cfg inst)
  action InstrType.mul = step (lift_mul b cfg inst)
  action InstrType.idiv = step (lift_div b cfg inst)
  action InstrType.div = step (lift_div b cfg inst)
  action InstrType.shl = step (lift_shift b cfg inst BinaryOp.shl)
  action InstrType.shr = step (lift_shift b cfg inst BinaryOp.lshr)
  action InstrType.sar = step (lift_shift b cfg inst BinaryOp.ashr)
  action InstrType.rol = step (lift_rotate b cfg inst)
  action InstrType.ror = step (lift_rotate b cfg inst)
  action InstrType.shld = step (lift_shiftdouble b cfg inst)
  action InstrType.shrd = step (lift_shiftdouble b cfg inst)
  action InstrType.bsf = step (lift_bitscan b cfg inst true)
  action InstrType.tzcnt = step (lift_bitscan b cfg inst true)
  action InstrType.bsr = step (lift_bitscan b cfg inst false)
  action InstrType.lzcnt = step (lift_bitscan b cfg inst false)
  action InstrType.bt = step (lift_bittest b cfg inst)
  action InstrType.btc = step (lift_bittest b cfg inst)
  action InstrType.btr = step (lift_bittest b cfg inst)
  action InstrType.bts = step (lift_bittest b cfg inst)
  action InstrType.bswap = step (lift_bswap b cfg inst)
  action InstrType.c_ex = step (lift_cext b cfg inst)
  action InstrType.c_sep = step (lift_csep b cfg inst)
  action InstrType.clc = step (set_flag b Facet.cf (b.const_int 1 0))
  action InstrType.stc = step (set_flag b Facet.cf (b.const_int 1 1))
  action InstrType.cmc = step lift_cmc
  action InstrType.cld = step (set_flag b Facet.df (b.const_int 1 0))
  action InstrType.std = step (set_flag b Facet.df (b.const_int 1 1))
  action t = cond_action t

-- What is left out here: the string instructions. A handler of theirs answers `unknown` for a type that
-- the switch does not name.
module _ {V : Type 0} (b : Builder V) (cfg : Config V) (others : Instr → Action V) where
  -- The default of the switch resets RIP to the begin of the instruction and reports a failure.
  unfoldable pub run_action : Instr → Action V → Lift V Bool
  run_action inst unknown = do set_ip b cfg inst.address true; pure false
  run_action inst (step m) = do m; pure true

  unfoldable pub select_action : Instr → Action V
  unfolding action cond_action jump_action sse_action
  select_action inst = elim (action b cfg inst inst.ty) [ step m ↦ step m | unknown ↦ others inst ]

  -- Lifter::Lift, without an instruction marker
  unfoldable pub lift : Instr → Lift V Bool
  unfolding run_action select_action
  lift inst = do
    set_ip b cfg (end inst) false
    elim (cfg.instr_overrides inst.ty) [
      | some fn ↦ do call_external_function b cfg fn; pure true
      | none ↦ run_action inst (select_action inst)
    ]
