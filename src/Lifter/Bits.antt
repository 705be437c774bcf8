-- ===== src/Lifter/Bits.antt =====
-- src/lifter-gp.cc: addresses, conditional moves, sign extension and single bits.
use rellume.Prelude.{ℕ, ◌-◌, ◌*◌, ◌/◌, ◌==◌, if◌then◌else◌, not, Bool, Option, none, some, [], ◌∷◌}
use rellume.Facet.{Facet, in_bits, resolve}
use rellume.Register.{rax, rdx, rbx}
use rellume.Instr.{Instr, InstrType, Op, mem_op, op, op_bits, is_reg, gpl, scale}
use rellume.Ir.{Builder, int, ptr, int_width, BinaryOp, CastOp, Predicate, Intrinsic}
use rellume.Lifter.Monad.{
  Lift, ◌>>=◌, ◌>>◌, pure, fail, skip, checked, get_reg, set_flag, set_flag_undef, create_load,
  create_store, Config,
}
use rellume.Lifter.Operand.{map_reg, op_load, op_addr, op_store_gp, store_gp_reg, default_seg}
use rellume.Lifter.Flags.{Condition, flag_cond, flag_calc_z}

module _ {V : Type 0} (b : Builder V) (cfg : Config V) where
  open b use {ty, const_int, bin, icmp, select, cast, gep, create_not, intrinsic}

  -- The sum that LEA computes.
  unfoldable pub lea_address : Op → Lift V V
  lea_address (mem_op size base index exponent disp seg addrsz) = do
    let bits = addrsz * 8
    f ← checked (resolve Facet.i bits)
    let present = not (base == cfg.fadec.reg_none)
    res ←
        if present
        then (do
          v ← get_reg b (map_reg cfg.fadec (record { rt = gpl; ri = base })) f
          pure (bin BinaryOp.add (const_int bits disp) v))
        else pure (const_int bits disp)
    let sc = scale cfg.fadec index exponent
    if sc == 0 then pure res else do
      offset ← get_reg b (map_reg cfg.fadec (record { rt = gpl; ri = index })) f
      pure (bin BinaryOp.add res (bin BinaryOp.mul offset (const_int bits sc)))
  lea_address o = fail

  -- Lifter::LiftLea
  unfoldable pub lift_lea : Instr → Lift V (Unit {0})
  lift_lea inst = do
    res ← lea_address (op inst 1)
    if is_reg (op inst 0)
        then op_store_gp b cfg (op inst 0)
            (cast CastOp.zext_or_trunc res (int (op_bits (op inst 0))))
        else fail

  -- Lifter::LiftXlat
  unfoldable pub lift_xlat : Instr → Lift V (Unit {0})
  lift_xlat inst = do
    al ← get_reg b rax Facet.i8
    bx ←
        if inst.addrsz == 8
        then (do p ← get_reg b rbx Facet.ptr; pure (cast CastOp.bitcast p (ptr (int 8) 0)))
        else do
          v ← get_reg b rbx Facet.i32
          pure (cast CastOp.inttoptr (cast CastOp.zext v (int 64)) (ptr (int 8) 0))
    val ← create_load b (int 8) (gep bx (cast CastOp.zext al (int 32))) 0
    store_gp_reg b cfg rax val

  -- Lifter::LiftCmovcc. A 32-bit register is zero-extended also if the condition is false.
  unfoldable pub lift_cmovcc : Instr → Condition → Lift V (Unit {0})
  lift_cmovcc inst cond = do
    op1 ← op_load b cfg (op inst 0) Facet.i
    op2 ← op_load b cfg (op inst 1) Facet.i
    c ← flag_cond b cond
    op_store_gp b cfg (op inst 0) (select c op2 op1)

  -- Lifter::LiftSetcc
  unfoldable pub lift_setcc : Instr → Condition → Lift V (Unit {0})
  lift_setcc inst cond = do
    c ← flag_cond b cond
    op_store_gp b cfg (op inst 0) (cast CastOp.zext c (int 8))

  -- Lifter::LiftCext
  unfoldable pub lift_cext : Instr → Lift V (Unit {0})
  lift_cext inst = do
    let sz = inst.opsz * 8
    f ← checked (in_bits (sz / 2))
    ax ← get_reg b rax f
    store_gp_reg b cfg rax (cast CastOp.sext ax (int sz))

  -- Lifter::LiftCsep
  unfoldable pub lift_csep : Instr → Lift V (Unit {0})
  lift_csep inst = do
    let sz = inst.opsz * 8
    f ← checked (in_bits sz)
    ax ← get_reg b rax f
    store_gp_reg b cfg rdx (bin BinaryOp.ashr ax (const_int sz (sz - 1)))

  -- Lifter::LiftBitscan
  unfoldable pub lift_bitscan : Instr → Bool → Lift V (Unit {0})
  lift_bitscan inst trailing = do
    src ← op_load b cfg (op inst 1) Facet.i
    let id = if trailing then Intrinsic.cttz else Intrinsic.ctlz
    let count = intrinsic id (src ∷ const_int 1 1 ∷ [])
    let sz = op_bits (op inst 1)
    let res = if trailing then count else bin BinaryOp.sub (const_int sz (sz - 1)) count
    op_store_gp b cfg (op inst 0) res
    flag_calc_z b src
    set_flag_undef b (Facet.of ∷ Facet.sf ∷ Facet.af ∷ Facet.pf ∷ Facet.cf ∷ [])

  -- What BTC, BTR and BTS make of the value; BT writes nothing back.
  abbrev bit_changed : InstrType → V → V → Option V
  bit_changed InstrType.bt val mask = none
  bit_changed InstrType.btc val mask = some (bin BinaryOp.xor val mask)
  bit_changed InstrType.btr val mask = some (bin BinaryOp.and val (create_not mask))
  bit_changed InstrType.bts val mask = some (bin BinaryOp.or val mask)
  bit_changed t val mask = some val

  -- __builtin_ctz of the three sizes that the assertion lets through.
  abbrev size_shift : ℕ → Option ℕ
  size_shift n =
      if n == 16 then some 4 else if n == 32 then some 5 else if n == 64 then some 6 else none

  -- seg() of a memory operand; there is no other use.
  abbrev seg_of : Op → ℕ
  seg_of (mem_op size base ix exponent disp seg addrsz) = seg
  seg_of o = default_seg

  -- The tested word in memory: a register index moves the address by whole words.
  unfoldable pub bittest_address : Instr → V → ℕ → ℕ → Lift V V
  bittest_address inst index size shift = do
    addr ← op_addr b cfg (op inst 0) (int size) (seg_of (op inst 0))
    if is_reg (op inst 1)
        then (do
          w ← checked (int_width (ty index))
          let off = bin BinaryOp.ashr index (const_int w shift)
          pure (gep addr (cast CastOp.sext off (int 64))))
        else pure addr

  -- The selected bit of LiftBittest goes to CF, and the changed value back to its place.
  unfoldable pub bittest_finish : Instr → V → V → ℕ → (V → Lift V (Unit {0})) → Lift V (Unit {0})
  bittest_finish inst index val size write_back = do
    let low_index = bin BinaryOp.and index (const_int size (size - 1))
    let mask = bin BinaryOp.shl (const_int size 1) low_index
    let bit = bin BinaryOp.and val mask
    elim (bit_changed inst.ty val mask) [ some val' ↦ write_back val' | none ↦ skip ]
    set_flag b Facet.cf (icmp Predicate.ne bit (const_int size 0))
    set_flag_undef b (Facet.of ∷ Facet.sf ∷ Facet.af ∷ Facet.pf ∷ [])

  -- Lifter::LiftBittest
  unfoldable pub lift_bittest : Instr → Lift V (Unit {0})
  lift_bittest inst = do
    index ← op_load b cfg (op inst 1) Facet.i
    let size = op_bits (op inst 0)
    shift ← checked (size_shift size)
    if is_reg (op inst 0)
        then (do
          val ← op_load b cfg (op inst 0) Facet.i
          bittest_finish inst index val size (op_store_gp b cfg (op inst 0)))
        else do
          addr ← bittest_address inst index size shift
          val ← create_load b (int size) addr 0
          bittest_finish inst index val size (λ v. create_store b v addr 0)

  -- Lifter::LiftMovbe
  unfoldable pub lift_movbe : Instr → Lift V (Unit {0})
  lift_movbe inst = do
    src ← op_load b cfg (op inst 1) Facet.i
    op_store_gp b cfg (op inst 0) (intrinsic Intrinsic.bswap (src ∷ []))

  -- Lifter::LiftBswap
  unfoldable pub lift_bswap : Instr → Lift V (Unit {0})
  lift_bswap inst = do
    src ← op_load b cfg (op inst 0) Facet.i
    if is_reg (op inst 0)
        then op_store_gp b cfg (op inst 0) (intrinsic Intrinsic.bswap (src ∷ []))
        else fail
