-- ===== src/Lifter/Sse/Select.antt =====
-- src/lifter.cc: the rows of the switch of Lifter::Lift for the other handlers of src/lifter-sse.cc.
use rellume.Prelude.{true, false}
use rellume.Facet.{Facet}
use rellume.Instr.{Instr, InstrType}
use rellume.Ir.{Builder, BinaryOp, CastOp, Predicate}
use rellume.Lifter.Monad.{Config}
use rellume.Lifter.Operand.{align_max, align_none}
use rellume.Lifter.Action.{Action, step}
use rellume.Lifter.Sse.Move.{
  lift_sse_mov_scalar, lift_sse_movdq, lift_sse_movhpd, lift_sse_movhps, lift_sse_movlp,
  lift_sse_movnt_store, lift_sse_movq,
}
use rellume.Lifter.Sse.Packed.{
  lift_sse_movmsk, lift_sse_pavg, lift_sse_pcmp, lift_sse_pminmax, lift_sse_pmulhw,
  lift_sse_pmuludq, lift_sse_pshift_element,
}
use rellume.Lifter.Sse.Saturate.{lift_sse_pack, lift_sse_paddsub_saturate}
use rellume.Lifter.Sse.Shuffle.{
  lift_sse_insertps, lift_sse_pextr, lift_sse_pinsr, lift_sse_pshift_bytes, lift_sse_pshufd,
  lift_sse_pshufw, lift_sse_shufpd, lift_sse_shufps, lift_sse_unpck,
}
use rellume.Lifter.Sse.State.{
  lift_fence, lift_fstcw, lift_fstsw, lift_fxrstor, lift_fxsave, lift_prefetch, lift_stmxcsr,
}
use rellume.Lifter.Sse.SelectFloat.{float_action}

module _ {V : Type 0} (b : Builder V) (cfg : Config V) (inst : Instr) where
  -- Packed integers.
  unfoldable pub packed_action : InstrType → Action V
  packed_action InstrType.sse_paddsb =
      step (lift_sse_paddsub_saturate b cfg inst BinaryOp.add true Facet.v16i8)
  packed_action InstrType.sse_paddsw =
      step (lift_sse_paddsub_saturate b cfg inst BinaryOp.add true Facet.v8i16)
  packed_action InstrType.sse_paddusb =
      step (lift_sse_paddsub_saturate b cfg inst BinaryOp.add false Facet.v16i8)
  packed_action InstrType.sse_paddusw =
      step (lift_sse_paddsub_saturate b cfg inst BinaryOp.add false Facet.v8i16)
  packed_action InstrType.sse_psubsb =
      step (lift_sse_paddsub_saturate b cfg inst BinaryOp.sub true Facet.v16i8)
  packed_action InstrType.sse_psubsw =
      step (lift_sse_paddsub_saturate b cfg inst BinaryOp.sub true Facet.v8i16)
  packed_action InstrType.sse_psubusb =
      step (lift_sse_paddsub_saturate b cfg inst BinaryOp.sub false Facet.v16i8)
  packed_action InstrType.sse_psubusw =
      step (lift_sse_paddsub_saturate b cfg inst BinaryOp.sub false Facet.v8i16)
  packed_action InstrType.sse_psllw =
      step (lift_sse_pshift_element b cfg inst BinaryOp.shl Facet.vi16)
  packed_action InstrType.sse_pslld =
      step (lift_sse_pshift_element b cfg inst BinaryOp.shl Facet.vi32)
  packed_action InstrType.sse_psllq =
      step (lift_sse_pshift_element b cfg inst BinaryOp.shl Facet.vi64)
  packed_action InstrType.sse_psrlw =
      step (lift_sse_pshift_element b cfg inst BinaryOp.lshr Facet.vi16)
  packed_action InstrType.sse_psrld =
      step (lift_sse_pshift_element b cfg inst BinaryOp.lshr Facet.vi32)
  packed_action InstrType.sse_psrlq =
      step (lift_sse_pshift_element b cfg inst BinaryOp.lshr Facet.vi64)
  packed_action InstrType.sse_psraw =
      step (lift_sse_pshift_element b cfg inst BinaryOp.ashr Facet.vi16)
  packed_action InstrType.sse_psrad =
      step (lift_sse_pshift_element b cfg inst BinaryOp.ashr Facet.vi32)
  packed_action InstrType.sse_packsswb = step (lift_sse_pack b cfg inst Facet.vi16 true)
  packed_action InstrType.sse_packssdw = step (lift_sse_pack b cfg inst Facet.vi32 true)
  packed_action InstrType.sse_packuswb = step (lift_sse_pack b cfg inst Facet.vi16 false)
  packed_action InstrType.sse_packusdw = step (lift_sse_pack b cfg inst Facet.vi32 false)
  packed_action InstrType.sse_pavgb = step (lift_sse_pavg b cfg inst Facet.vi8)
  packed_action InstrType.sse_pavgw = step (lift_sse_pavg b cfg inst Facet.vi16)
  packed_action InstrType.sse_pmulhw = step (lift_sse_pmulhw b cfg inst CastOp.sext)
  packed_action InstrType.sse_pmulhuw = step (lift_sse_pmulhw b cfg inst CastOp.zext)
  packed_action InstrType.sse_pmuludq = step (lift_sse_pmuludq b cfg inst)
  packed_action InstrType.sse_pcmpeqb = step (lift_sse_pcmp b cfg inst Predicate.eq Facet.vi8)
  packed_action InstrType.sse_pcmpeqw = step (lift_sse_pcmp b cfg inst Predicate.eq Facet.vi16)
  packed_action InstrType.sse_pcmpeqd = step (lift_sse_pcmp b cfg inst Predicate.eq Facet.vi32)
  packed_action InstrType.sse_pcmpeqq = step (lift_sse_pcmp b cfg inst Predicate.eq Facet.vi64)
  packed_action InstrType.sse_pcmpgtb = step (lift_sse_pcmp b cfg inst Predicate.sgt Facet.vi8)
  packed_action InstrType.sse_pcmpgtw = step (lift_sse_pcmp b cfg inst Predicate.sgt Facet.vi16)
  packed_action InstrType.sse_pcmpgtd = step (lift_sse_pcmp b cfg inst Predicate.sgt Facet.vi32)
  packed_action InstrType.sse_pcmpgtq = step (lift_sse_pcmp b cfg inst Predicate.sgt Facet.vi64)
  packed_action InstrType.sse_pminub = step (lift_sse_pminmax b cfg inst Predicate.ult Facet.vi8)
  packed_action InstrType.sse_pminuw = step (lift_sse_pminmax b cfg inst Predicate.ult Facet.vi16)
  packed_action InstrType.sse_pminud = step (lift_sse_pminmax b cfg inst Predicate.ult Facet.vi32)
  packed_action InstrType.sse_pminsb = step (lift_sse_pminmax b cfg inst Predicate.slt Facet.vi8)
  packed_action InstrType.sse_pminsw = step (lift_sse_pminmax b cfg inst Predicate.slt Facet.vi16)
  packed_action InstrType.sse_pminsd = step (lift_sse_pminmax b cfg inst Predicate.slt Facet.vi32)
  packed_action InstrType.sse_pmaxub = step (lift_sse_pminmax b cfg inst Predicate.ugt Facet.vi8)
  packed_action InstrType.sse_pmaxuw = step (lift_sse_pminmax b cfg inst Predicate.ugt Facet.vi16)
  packed_action InstrType.sse_pmaxud = step (lift_sse_pminmax b cfg inst Predicate.ugt Facet.vi32)
  packed_action InstrType.sse_pmaxsb = step (lift_sse_pminmax b cfg inst Predicate.sgt Facet.vi8)
  packed_action InstrType.sse_pmaxsw = step (lift_sse_pminmax b cfg inst Predicate.sgt Facet.vi16)
  packed_action InstrType.sse_pmaxsd = step (lift_sse_pminmax b cfg inst Predicate.sgt Facet.vi32)
  packed_action InstrType.sse_pmovmskb = step (lift_sse_movmsk b cfg inst Facet.vi8)
  packed_action InstrType.sse_movmskps = step (lift_sse_movmsk b cfg inst Facet.vi32)
  packed_action InstrType.sse_movmskpd = step (lift_sse_movmsk b cfg inst Facet.vi64)
  packed_action t = float_action b cfg inst t

  -- The order of elements.
  unfoldable pub shuffle_action : InstrType → Action V
  shuffle_action InstrType.sse_punpcklbw = step (lift_sse_unpck b cfg inst Facet.v16i8)
  shuffle_action InstrType.sse_punpcklwd = step (lift_sse_unpck b cfg inst Facet.v8i16)
  shuffle_action InstrType.sse_punpckldq = step (lift_sse_unpck b cfg inst Facet.v4i32)
  shuffle_action InstrType.sse_punpcklqdq = step (lift_sse_unpck b cfg inst Facet.v2i64)
  shuffle_action InstrType.sse_punpckhbw = step (lift_sse_unpck b cfg inst Facet.v16i8)
  shuffle_action InstrType.sse_punpckhwd = step (lift_sse_unpck b cfg inst Facet.v8i16)
  shuffle_action InstrType.sse_punpckhdq = step (lift_sse_unpck b cfg inst Facet.v4i32)
  shuffle_action InstrType.sse_punpckhqdq = step (lift_sse_unpck b cfg inst Facet.v2i64)
  shuffle_action InstrType.sse_unpcklps = step (lift_sse_unpck b cfg inst Facet.v4f32)
  shuffle_action InstrType.sse_unpcklpd = step (lift_sse_unpck b cfg inst Facet.v2f64)
  shuffle_action InstrType.sse_unpckhps = step (lift_sse_unpck b cfg inst Facet.v4f32)
  shuffle_action InstrType.sse_unpckhpd = step (lift_sse_unpck b cfg inst Facet.v2f64)
  shuffle_action InstrType.sse_shufpd = step (lift_sse_shufpd b cfg inst)
  shuffle_action InstrType.sse_shufps = step (lift_sse_shufps b cfg inst)
  shuffle_action InstrType.sse_pshufd = step (lift_sse_pshufd b cfg inst)
  shuffle_action InstrType.sse_pshuflw = step (lift_sse_pshufw b cfg inst 0)
  shuffle_action InstrType.sse_pshufhw = step (lift_sse_pshufw b cfg inst 4)
  shuffle_action InstrType.sse_insertps = step (lift_sse_insertps b cfg inst)
  shuffle_action InstrType.sse_pslldq = step (lift_sse_pshift_bytes b cfg inst)
  shuffle_action InstrType.sse_psrldq = step (lift_sse_pshift_bytes b cfg inst)
  shuffle_action InstrType.sse_pinsrb = step (lift_sse_pinsr b cfg inst Facet.vi8 Facet.i8 15)
  shuffle_action InstrType.sse_pinsrw = step (lift_sse_pinsr b cfg inst Facet.vi16 Facet.i16 7)
  shuffle_action InstrType.sse_pinsrd = step (lift_sse_pinsr b cfg inst Facet.vi32 Facet.i32 3)
  shuffle_action InstrType.sse_pinsrq = step (lift_sse_pinsr b cfg inst Facet.vi64 Facet.i64 1)
  shuffle_action InstrType.sse_pextrb = step (lift_sse_pextr b cfg inst Facet.vi8 15)
  shuffle_action InstrType.sse_pextrw = step (lift_sse_pextr b cfg inst Facet.vi16 7)
  shuffle_action InstrType.sse_pextrd = step (lift_sse_pextr b cfg inst Facet.vi32 3)
  shuffle_action InstrType.sse_pextrq = step (lift_sse_pextr b cfg inst Facet.vi64 1)
  shuffle_action t = packed_action t

  -- Moves.
  unfoldable pub move_action : InstrType → Action V
  move_action InstrType.sse_movd = step (lift_sse_movq b cfg inst Facet.i32)
  move_action InstrType.sse_movq = step (lift_sse_movq b cfg inst Facet.i64)
  move_action InstrType.sse_movss = step (lift_sse_mov_scalar b cfg inst Facet.f32)
  move_action InstrType.sse_movsd = step (lift_sse_mov_scalar b cfg inst Facet.f64)
  move_action InstrType.sse_movups = step (lift_sse_movdq b cfg inst Facet.v4f32 align_none)
  move_action InstrType.sse_movupd = step (lift_sse_movdq b cfg inst Facet.v2f64 align_none)
  move_action InstrType.sse_movaps = step (lift_sse_movdq b cfg inst Facet.v4f32 align_max)
  move_action InstrType.sse_movapd = step (lift_sse_movdq b cfg inst Facet.v2f64 align_max)
  move_action InstrType.sse_movdqu = step (lift_sse_movdq b cfg inst Facet.i128 align_none)
  move_action InstrType.sse_movdqa = step (lift_sse_movdq b cfg inst Facet.i128 align_max)
  move_action InstrType.sse_movntps = step (lift_sse_movnt_store b cfg inst Facet.vf32)
  move_action InstrType.sse_movntpd = step (lift_sse_movnt_store b cfg inst Facet.vf64)
  move_action InstrType.sse_movntdq = step (lift_sse_movnt_store b cfg inst Facet.vi64)
  move_action InstrType.sse_movntdqa = step (lift_sse_movdq b cfg inst Facet.i128 align_max)
  move_action InstrType.sse_movlps = step (lift_sse_movlp b cfg inst)
  move_action InstrType.sse_movlpd = step (lift_sse_movlp b cfg inst)
  move_action InstrType.sse_movhps = step (lift_sse_movhps b cfg inst)
  move_action InstrType.sse_movhpd = step (lift_sse_movhpd b cfg inst)
  move_action t = shuffle_action t

  -- Fences, prefetches and the floating-point unit.
  unfoldable pub state_action : InstrType → Action V
  state_action InstrType.lfence = step (lift_fence b cfg inst)
  state_action InstrType.sfence = step (lift_fence b cfg inst)
  state_action InstrType.mfence = step (lift_fence b cfg inst)
  state_action InstrType.prefetcht0 = step (lift_prefetch b cfg inst 0 3)
  state_action InstrType.prefetcht1 = step (lift_prefetch b cfg inst 0 2)
  state_action InstrType.prefetcht2 = step (lift_prefetch b cfg inst 0 1)
  state_action InstrType.prefetchnta = step (lift_prefetch b cfg inst 0 0)
  state_action InstrType.prefetchw = step (lift_prefetch b cfg inst 1 1)
  state_action InstrType.fxsave = step (lift_fxsave b cfg inst)
  state_action InstrType.fxrstor = step (lift_fxrstor b cfg inst)
  state_action InstrType.fstcw = step (lift_fstcw b cfg inst)
  state_action InstrType.fstsw = step (lift_fstsw b cfg inst)
  state_action InstrType.stmxcsr = step (lift_stmxcsr b cfg inst)
  state_action t = move_action t

  -- All rows that call src/lifter-sse.cc.
  unfoldable pub sse_action : InstrType → Action V
  unfolding state_action move_action shuffle_action packed_action float_action
  sse_action t = state_action t
