-- ===== src/Lifter/Operand.antt =====
-- src/lifter-operand.cc: loads and stores of instruction operands, and the stack.
pub mod Address
use rellume.Prelude.{
  ℕ, ◌+◌, ◌-◌, ◌*◌, ◌/◌, ◌%◌, ◌^◌, ◌==◌, ltb, if◌then◌else◌, ◌&&◌, ◌||◌, not, Bool, true, false,
  none, some,
}
use rellume.Facet.{Facet, facet_eq, in_bits, resolve}
use rellume.Register.{X86Reg, gp_reg, vec_reg, ip_reg, invalid_reg, rsp, is_gp}
use rellume.Instr.{
  FadecRegs, RegType, gpl, gph, other_rt, Reg, Op, no_op, reg_op, imm_op, off_op, mem_op, op_bits,
  scale, u64,
}
use rellume.Ir.{
  Builder, IrType, int, ptr, type_eq, int_width, primitive_bits, facet_type, BinaryOp, CastOp,
}
use rellume.CpuStruct.{fsbase, gsbase}
use rellume.Lifter.Monad.{
  Lift, ◌>>=◌, ◌>>◌, pure, fail, checked, get_reg, set_reg, set_reg_facet, set_reg_ptr, create_load,
  create_store, Config,
}
unfoldable pub use rellume.Lifter.Operand.Address.{
  map_reg, gpl_reg, default_seg, sdiv64, op_addr_const, add_base, add_scaled, add_segment,
  op_addr_int, op_addr_base, op_addr_ptr, op_addr,
}

pub data Alignment : Type 0 where
  align_imp align_max align_none : Alignment

-- The alignment in bytes that ll_operand_set_alignment gives to a load or a store.
unfoldable pub alignment_bytes : Alignment → Bool → IrType → ℕ
alignment_bytes align_imp true t = primitive_bits t / 8
alignment_bytes align_imp false t = 1
alignment_bytes align_max sse t = primitive_bits t / 8
alignment_bytes align_none sse t = 1

abbrev is_high : Reg → Bool
is_high r = elim r.rt [ gph ↦ true | _ ↦ false ]

module _ {V : Type 0} (b : Builder V) (cfg : Config V) where
  open b use {ty, as_add, as_const, is_constant, is_null, const_int, null, bin, cast, gep}
  open b use {insert_element, shuffle}

  -- RIP plus an offset, which is joined to the constant of a sum "base_rip + off".
  abbrev add_to_rip : V → V → V
  add_to_rip rip rip_off = elim (as_add rip) [
    | some (base, off) ↦ bin BinaryOp.add base (bin BinaryOp.add off rip_off)
    | none ↦ bin BinaryOp.add rip rip_off
  ]

  -- OpLoad behind the resolution of the facet.
  unfoldable pub load_resolved : Op → Facet → Alignment → ℕ → Lift V V
  load_resolved no_op f alignment seg = fail
  load_resolved (imm_op size imm) f alignment seg = pure (const_int (size * 8) imm)
  load_resolved (off_op size pcrel) f alignment seg = do
    rip ← get_reg b ip_reg f
    pure (add_to_rip rip (const_int (size * 8) pcrel))
  load_resolved (reg_op size r) f alignment seg =
      get_reg b (map_reg cfg.fadec r) (if facet_eq f Facet.i8 && is_high r then Facet.i8h else f)
  load_resolved (mem_op size base index exponent disp op_seg addrsz) f alignment seg = do
    t ← checked (facet_type f)
    addr ←
        op_addr b cfg (mem_op size base index exponent disp op_seg addrsz) t
          (if seg == default_seg then op_seg else seg)
    create_load b t addr (alignment_bytes alignment false t)

  -- LifterBase::OpLoad
  unfoldable pub op_load_at : Op → Facet → Alignment → ℕ → Lift V V
  unfolding load_resolved
  op_load_at o f alignment seg = do
    f ← checked (resolve f (op_bits o))
    load_resolved o f alignment seg

  -- with its default arguments
  unfoldable pub op_load : Op → Facet → Lift V V
  unfolding op_load_at
  op_load o f = op_load_at o f align_none default_seg

  -- The bits of the old value that a store to a facet keeps.
  abbrev pub kept_mask : Facet → ℕ
  kept_mask Facet.i16 = 0xffffffffffff0000
  kept_mask Facet.i8 = 0xffffffffffffff00
  kept_mask Facet.i8h = 0xffffffffffff00ff
  kept_mask f = 0

  -- The new 64-bit value before the old one is merged in.
  abbrev pub widen : Facet → V → V
  widen f v =
      let value64 = cast CastOp.zext v (int 64) in
      if facet_eq f Facet.i8h then bin BinaryOp.shl value64 (const_int 64 8) else value64

  -- The bits of the old value are or-ed in.
  unfoldable pub merge : X86Reg → Facet → V → Lift V V
  merge r f value64 = if kept_mask f == 0 then pure value64 else do
    prev64 ← get_reg b r Facet.i64
    pure (bin BinaryOp.or value64 (bin BinaryOp.and prev64 (const_int 64 (kept_mask f))))

  -- OpStoreGp of a register and a facet
  unfoldable pub store_gp_facet : X86Reg → Facet → V → Lift V (Unit {0})
  store_gp_facet r f v = do
    t ← checked (facet_type f)
    _ ← checked (int_width (ty v))
    if is_gp r && type_eq (ty v) t
        then (do
          value64 ← merge r f (widen f v)
          set_reg b r Facet.i64 value64
          set_reg_facet b r f v)
        else fail

  -- OpStoreGp of a register
  unfoldable pub store_gp_reg : X86Reg → V → Lift V (Unit {0})
  unfolding store_gp_facet
  store_gp_reg r v = do
    w ← checked (int_width (ty v))
    f ← checked (in_bits w)
    store_gp_facet r f v

  -- OpStoreGp of an operand
  unfoldable pub op_store_gp : Op → V → Lift V (Unit {0})
  op_store_gp (reg_op size r) v = do
    w ← checked (int_width (ty v))
    f ← checked (in_bits w)
    if w == size * 8
        then store_gp_facet (map_reg cfg.fadec r)
            (if facet_eq f Facet.i8 && is_high r then Facet.i8h else f) v
        else fail
  op_store_gp (mem_op size base index exponent disp seg addrsz) v = do
    addr ← op_addr b cfg (mem_op size base index exponent disp seg addrsz) (ty v) seg
    create_store b v addr (alignment_bytes align_none false (ty v))
  op_store_gp o v = fail

  -- LifterBase::StackPush
  unfoldable pub stack_push : V → Lift V (Unit {0})
  stack_push v = do
    sp ← get_reg b rsp Facet.ptr
    let sp' = gep (cast CastOp.bitcast sp (ptr (ty v) 0)) (const_int 64 (2 ^ 64 - 1))
    create_store b v sp' 0
    set_reg_ptr b rsp sp'

  -- LifterBase::StackPop
  unfoldable pub stack_pop : X86Reg → Lift V V
  stack_pop sp_src_reg = do
    sp ← get_reg b sp_src_reg Facet.ptr
    let sp' = cast CastOp.bitcast sp (ptr (int 64) 0)
    set_reg_ptr b rsp (gep sp' (const_int 64 1))
    create_load b (int 64) sp' 0
