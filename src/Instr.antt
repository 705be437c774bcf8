-- ===== src/Instr.antt =====
-- src/instr.h: the decoded instruction, a view of fadec's FdInstr. Immediates, displacements and
-- offsets are int64_t, kept as their 64-bit patterns.
use rellume.Prelude.{
  ℕ, ◌+◌, ◌*◌, ◌%◌, ◌^◌, ◌==◌, if◌then◌else◌, Bool, true, false, List, get_or, Option, none, some,
}

-- The mnemonics of fadec that the sources name; `other` is any other number of FdInstrType.
pub data InstrType : Type 0 where
  jo jno jc jnc jz jnz jbe ja js jns jp jnp jl jge jle jg : InstrType
  jcxz loop loopz loopnz jmp call ret syscall : InstrType
  int int3 into ud0 ud1 ud2 hlt : InstrType
  nop rdssp endbr64 bndldx bndmov bndcu bndcl bndstx bndcn bndmk : InstrType
  push pushf popf pop leave lahf sahf : InstrType
  mov movabs movzx movsx movnti movbe : InstrType
  add adc sub sbb cmp xadd cmpxchg xchg lea xlatb : InstrType
  not neg inc dec and or xor test : InstrType
  imul mul idiv div shl shr sar rol ror shld shrd : InstrType
  bsf tzcnt bsr lzcnt bt btc btr bts bswap c_ex c_sep : InstrType
  clc stc cmc cld std lods stos movs scas cmps : InstrType
  cmovo cmovno cmovc cmovnc cmovz cmovnz cmovbe cmova : InstrType
  cmovs cmovns cmovp cmovnp cmovl cmovge cmovle cmovg : InstrType
  seto setno setc setnc setz setnz setbe seta : InstrType
  sets setns setp setnp setl setge setle setg : InstrType
  lfence sfence mfence prefetcht0 prefetcht1 prefetcht2 prefetchnta prefetchw fxsave : InstrType
  fxrstor fstcw fstsw stmxcsr sse_movd sse_movq sse_movss sse_movsd sse_movups : InstrType
  sse_movupd sse_movaps sse_movapd sse_movdqu sse_movdqa sse_movntps sse_movntpd : InstrType
  sse_movntdq sse_movntdqa sse_movlps sse_movlpd sse_movhps sse_movhpd sse_punpcklbw : InstrType
  sse_punpcklwd sse_punpckldq sse_punpcklqdq sse_punpckhbw sse_punpckhwd sse_punpckhdq : InstrType
  sse_punpckhqdq sse_unpcklps sse_unpcklpd sse_unpckhps sse_unpckhpd sse_shufpd : InstrType
  sse_shufps sse_pshufd sse_pshuflw sse_pshufhw sse_insertps sse_addss sse_addsd : InstrType
  sse_addps sse_addpd sse_subss sse_subsd sse_subps sse_subpd sse_mulss sse_mulsd : InstrType
  sse_mulps sse_mulpd sse_divss sse_divsd sse_divps sse_divpd sse_minss sse_minsd : InstrType
  sse_minps sse_minpd sse_maxss sse_maxsd sse_maxps sse_maxpd sse_orps sse_orpd : InstrType
  sse_andps sse_andpd sse_xorps sse_xorpd sse_andnps sse_andnpd sse_comiss sse_comisd : InstrType
  sse_ucomiss sse_ucomisd sse_cmpss sse_cmpsd sse_cmpps sse_cmppd sse_sqrtss sse_sqrtsd : InstrType
  sse_sqrtps sse_sqrtpd sse_cvtdq2pd sse_cvtdq2ps sse_cvttpd2dq sse_cvttps2dq : InstrType
  sse_cvtpd2ps sse_cvtps2pd sse_cvtsd2ss sse_cvtss2sd sse_cvttsd2si sse_cvttss2si : InstrType
  sse_cvtsi2sd sse_cvtsi2ss sse_pxor sse_por sse_pand sse_pandn sse_paddb sse_paddw : InstrType
  sse_paddd sse_paddq sse_psubb sse_psubw sse_psubd sse_psubq sse_paddsb sse_paddsw : InstrType
  sse_paddusb sse_paddusw sse_psubsb sse_psubsw sse_psubusb sse_psubusw sse_pmullw : InstrType
  sse_pmulld sse_psllw sse_pslld sse_psllq sse_psrlw sse_psrld sse_psrlq sse_psraw : InstrType
  sse_psrad sse_pslldq sse_psrldq sse_packsswb sse_packssdw sse_packuswb sse_packusdw : InstrType
  sse_pinsrb sse_pinsrw sse_pinsrd sse_pinsrq sse_pextrb sse_pextrw sse_pextrd : InstrType
  sse_pextrq sse_pavgb sse_pavgw sse_pmulhw sse_pmulhuw sse_pmuludq sse_pcmpeqb : InstrType
  sse_pcmpeqw sse_pcmpeqd sse_pcmpeqq sse_pcmpgtb sse_pcmpgtw sse_pcmpgtd sse_pcmpgtq : InstrType
  sse_pminub sse_pminuw sse_pminud sse_pminsb sse_pminsw sse_pminsd sse_pmaxub : InstrType
  sse_pmaxuw sse_pmaxud sse_pmaxsb sse_pmaxsw sse_pmaxsd sse_pmovmskb sse_movmskps : InstrType
  sse_movmskpd : InstrType
  other : ℕ → InstrType

-- The kinds of registers of fadec that MapReg knows, and any other.
pub data RegType : Type 0 where
  gpl gph vec : RegType
  other_rt : ℕ → RegType

-- FD_REG_NONE, FD_REG_IP, FD_REG_AH, FD_REG_DS, FD_REG_FS and FD_REG_GS.
pub record FadecRegs : Type 0 where
  pub reg_none : ℕ
  pub reg_ip : ℕ
  pub reg_ah : ℕ
  pub reg_ds : ℕ
  pub reg_fs : ℕ
  pub reg_gs : ℕ

-- Instr::Reg
pub record Reg : Type 0 where
  pub rt : RegType
  pub ri : ℕ

-- Instr::Op by the type of the operand; `size` is in bytes, `scale` the exponent in the encoding.
pub data Op : Type 0 where
  no_op : Op
  reg_op : ℕ → Reg → Op
  imm_op : ℕ → ℕ → Op
  off_op : ℕ → ℕ → Op
  mem_op : (size base index scale disp seg addrsz : ℕ) → Op

pub record Instr : Type 0 where
  pub ty : InstrType
  pub address : ℕ
  pub len : ℕ
  pub opsz : ℕ
  pub addrsz : ℕ
  pub has_rep : Bool
  pub has_repnz : Bool
  pub ops : List Op

-- uintptr_t and uint64_t arithmetic.
abbrev pub u64 : ℕ → ℕ
u64 n = n % 2 ^ 64

abbrev pub end : Instr → ℕ
end inst = u64 (inst.address + inst.len)

abbrev pub op : Instr → ℕ → Op
op inst idx = get_or inst.ops idx no_op

abbrev pub is_present : Op → Bool
is_present no_op = false
is_present o = true

abbrev pub op_size : Op → ℕ
op_size no_op = 0
op_size (reg_op size r) = size
op_size (imm_op size v) = size
op_size (off_op size v) = size
op_size (mem_op size base index scale disp seg addrsz) = size

abbrev pub op_bits : Op → ℕ
op_bits o = op_size o * 8

abbrev pub is_reg : Op → Bool
is_reg (reg_op size r) = true
is_reg o = false

-- pcrel(), where is_pcrel() holds.
abbrev pub pcrel? : Op → Option ℕ
pcrel? (off_op size v) = some v
pcrel? o = none

-- imm(), where is_imm() holds.
abbrev pub imm? : Op → Option ℕ
imm? (imm_op size imm) = some imm
imm? o = none

abbrev pub is_mem : Op → Bool
is_mem (mem_op size base index scale disp seg addrsz) = true
is_mem o = false

abbrev pub is_vec_reg : Op → Bool
is_vec_reg (reg_op size r) = elim r.rt [ RegType.vec ↦ true | _ ↦ false ]
is_vec_reg o = false

-- scale(), of the index register and the exponent.
abbrev pub scale : FadecRegs → ℕ → ℕ → ℕ
scale fd index exponent = if index == fd.reg_none then 0 else 2 ^ exponent
