-- ===== src/Lifter/Sse/SelectFloat.antt =====
-- src/lifter.cc: the rows of the switch of Lifter::Lift for operations on two values of a type.
use rellume.Facet.{Facet}
use rellume.Instr.{Instr, InstrType}
use rellume.Ir.{Builder, BinaryOp, FloatPredicate}
use rellume.Lifter.Monad.{Config}
use rellume.Lifter.Action.{Action, unknown, step}
use rellume.Lifter.Sse.Float.{
  lift_sse_andn, lift_sse_bin_op, lift_sse_cmp, lift_sse_comis, lift_sse_cvt, lift_sse_minmax,
  lift_sse_sqrt,
}

module _ {V : Type 0} (b : Builder V) (cfg : Config V) (inst : Instr) where
  -- Operations on two values of a type.
  unfoldable pub float_action : InstrType → Action V
  float_action InstrType.sse_addss = step (lift_sse_bin_op b cfg inst BinaryOp.fadd Facet.f32)
  float_action InstrType.sse_addsd = step (lift_sse_bin_op b cfg inst BinaryOp.fadd Facet.f64)
  float_action InstrType.sse_addps = step (lift_sse_bin_op b cfg inst BinaryOp.fadd Facet.vf32)
  float_action InstrType.sse_addpd = step (lift_sse_bin_op b cfg inst BinaryOp.fadd Facet.vf64)
  float_action InstrType.sse_subss = step (lift_sse_bin_op b cfg inst BinaryOp.fsub Facet.f32)
  float_action InstrType.sse_subsd = step (lift_sse_bin_op b cfg inst BinaryOp.fsub Facet.f64)
  float_action InstrType.sse_subps = step (lift_sse_bin_op b cfg inst BinaryOp.fsub Facet.vf32)
  float_action InstrType.sse_subpd = step (lift_sse_bin_op b cfg inst BinaryOp.fsub Facet.vf64)
  float_action InstrType.sse_mulss = step (lift_sse_bin_op b cfg inst BinaryOp.fmul Facet.f32)
  float_action InstrType.sse_mulsd = step (lift_sse_bin_op b cfg inst BinaryOp.fmul Facet.f64)
  float_action InstrType.sse_mulps = step (lift_sse_bin_op b cfg inst BinaryOp.fmul Facet.vf32)
  float_action InstrType.sse_mulpd = step (lift_sse_bin_op b cfg inst BinaryOp.fmul Facet.vf64)
  float_action InstrType.sse_divss = step (lift_sse_bin_op b cfg inst BinaryOp.fdiv Facet.f32)
  float_action InstrType.sse_divsd = step (lift_sse_bin_op b cfg inst BinaryOp.fdiv Facet.f64)
  float_action InstrType.sse_divps = step (lift_sse_bin_op b cfg inst BinaryOp.fdiv Facet.vf32)
  float_action InstrType.sse_divpd = step (lift_sse_bin_op b cfg inst BinaryOp.fdiv Facet.vf64)
  float_action InstrType.sse_minss = step (lift_sse_minmax b cfg inst FloatPredicate.olt Facet.f32)
  float_action InstrType.sse_minsd = step (lift_sse_minmax b cfg inst FloatPredicate.olt Facet.f64)
  float_action InstrType.sse_minps = step (lift_sse_minmax b cfg inst FloatPredicate.olt Facet.vf32)
  float_action InstrType.sse_minpd = step (lift_sse_minmax b cfg inst FloatPredicate.olt Facet.vf64)
  float_action InstrType.sse_maxss = step (lift_sse_minmax b cfg inst FloatPredicate.ogt Facet.f32)
  float_action InstrType.sse_maxsd = step (lift_sse_minmax b cfg inst FloatPredicate.ogt Facet.f64)
  float_action InstrType.sse_maxps = step (lift_sse_minmax b cfg inst FloatPredicate.ogt Facet.vf32)
  float_action InstrType.sse_maxpd = step (lift_sse_minmax b cfg inst FloatPredicate.ogt Facet.vf64)
  float_action InstrType.sse_orps = step (lift_sse_bin_op b cfg inst BinaryOp.or Facet.vi32)
  float_action InstrType.sse_orpd = step (lift_sse_bin_op b cfg inst BinaryOp.or Facet.vi64)
  float_action InstrType.sse_andps = step (lift_sse_bin_op b cfg inst BinaryOp.and Facet.vi32)
  float_action InstrType.sse_andpd = step (lift_sse_bin_op b cfg inst BinaryOp.and Facet.vi64)
  float_action InstrType.sse_xorps = step (lift_sse_bin_op b cfg inst BinaryOp.xor Facet.vi32)
  float_action InstrType.sse_xorpd = step (lift_sse_bin_op b cfg inst BinaryOp.xor Facet.vi64)
  float_action InstrType.sse_andnps = step (lift_sse_andn b cfg inst Facet.vi32)
  float_action InstrType.sse_andnpd = step (lift_sse_andn b cfg inst Facet.vi64)
  float_action InstrType.sse_comiss = step (lift_sse_comis b cfg inst Facet.f32)
  float_action InstrType.sse_comisd = step (lift_sse_comis b cfg inst Facet.f64)
  float_action InstrType.sse_ucomiss = step (lift_sse_comis b cfg inst Facet.f32)
  float_action InstrType.sse_ucomisd = step (lift_sse_comis b cfg inst Facet.f64)
  float_action InstrType.sse_cmpss = step (lift_sse_cmp b cfg inst Facet.f32)
  float_action InstrType.sse_cmpsd = step (lift_sse_cmp b cfg inst Facet.f64)
  float_action InstrType.sse_cmpps = step (lift_sse_cmp b cfg inst Facet.vf32)
  float_action InstrType.sse_cmppd = step (lift_sse_cmp b cfg inst Facet.vf64)
  float_action InstrType.sse_sqrtss = step (lift_sse_sqrt b cfg inst Facet.f32)
  float_action InstrType.sse_sqrtsd = step (lift_sse_sqrt b cfg inst Facet.f64)
  float_action InstrType.sse_sqrtps = step (lift_sse_sqrt b cfg inst Facet.vf32)
  float_action InstrType.sse_sqrtpd = step (lift_sse_sqrt b cfg inst Facet.vf64)
  float_action InstrType.sse_cvtdq2pd = step (lift_sse_cvt b cfg inst Facet.v2i32 Facet.v2f64)
  float_action InstrType.sse_cvtdq2ps = step (lift_sse_cvt b cfg inst Facet.v4i32 Facet.v4f32)
  float_action InstrType.sse_cvttpd2dq = step (lift_sse_cvt b cfg inst Facet.v2f64 Facet.v2i32)
  float_action InstrType.sse_cvttps2dq = step (lift_sse_cvt b cfg inst Facet.v4f32 Facet.v4i32)
  float_action InstrType.sse_cvtpd2ps = step (lift_sse_cvt b cfg inst Facet.v2f64 Facet.v2f32)
  float_action InstrType.sse_cvtps2pd = step (lift_sse_cvt b cfg inst Facet.v2f32 Facet.v2f64)
  float_action InstrType.sse_cvtsd2ss = step (lift_sse_cvt b cfg inst Facet.f64 Facet.f32)
  float_action InstrType.sse_cvtss2sd = step (lift_sse_cvt b cfg inst Facet.f32 Facet.f64)
  float_action InstrType.sse_cvttsd2si = step (lift_sse_cvt b cfg inst Facet.f64 Facet.i)
  float_action InstrType.sse_cvttss2si = step (lift_sse_cvt b cfg inst Facet.f32 Facet.i)
  float_action InstrType.sse_cvtsi2sd = step (lift_sse_cvt b cfg inst Facet.i Facet.f64)
  float_action InstrType.sse_cvtsi2ss = step (lift_sse_cvt b cfg inst Facet.i Facet.f32)
  float_action InstrType.sse_pxor = step (lift_sse_bin_op b cfg inst BinaryOp.xor Facet.vi64)
  float_action InstrType.sse_por = step (lift_sse_bin_op b cfg inst BinaryOp.or Facet.vi64)
  float_action InstrType.sse_pand = step (lift_sse_bin_op b cfg inst BinaryOp.and Facet.vi64)
  float_action InstrType.sse_pandn = step (lift_sse_andn b cfg inst Facet.vi64)
  float_action InstrType.sse_paddb = step (lift_sse_bin_op b cfg inst BinaryOp.add Facet.v16i8)
  float_action InstrType.sse_paddw = step (lift_sse_bin_op b cfg inst BinaryOp.add Facet.v8i16)
  float_action InstrType.sse_paddd = step (lift_sse_bin_op b cfg inst BinaryOp.add Facet.v4i32)
  float_action InstrType.sse_paddq = step (lift_sse_bin_op b cfg inst BinaryOp.add Facet.v2i64)
  float_action InstrType.sse_psubb = step (lift_sse_bin_op b cfg inst BinaryOp.sub Facet.v16i8)
  float_action InstrType.sse_psubw = step (lift_sse_bin_op b cfg inst BinaryOp.sub Facet.v8i16)
  float_action InstrType.sse_psubd = step (lift_sse_bin_op b cfg inst BinaryOp.sub Facet.v4i32)
  float_action InstrType.sse_psubq = step (lift_sse_bin_op b cfg inst BinaryOp.sub Facet.v2i64)
  float_action InstrType.sse_pmullw = step (lift_sse_bin_op b cfg inst BinaryOp.mul Facet.v8i16)
  float_action InstrType.sse_pmulld = step (lift_sse_bin_op b cfg inst BinaryOp.mul Facet.v4i32)
  float_action t = unknown
