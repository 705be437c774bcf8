-- ===== src/Lifter/Operand/Address.antt =====
-- src/lifter-operand.cc: registers and addresses of instruction operands.
use rellume.Prelude.{
  ℕ, ◌+◌, ◌-◌, ◌*◌, ◌/◌, ◌%◌, ◌^◌, ◌==◌, ltb, if◌then◌else◌, ◌&&◌, ◌||◌, not, Bool, none, some,
}
use rellume.Facet.{Facet}
use rellume.Register.{X86Reg, gp_reg, vec_reg, ip_reg, invalid_reg}
use rellume.Instr.{FadecRegs, RegType, gpl, gph, other_rt, Reg, Op, mem_op, scale, u64}
use rellume.Ir.{Builder, IrType, int, ptr, primitive_bits, BinaryOp, CastOp}
use rellume.CpuStruct.{fsbase, gsbase}
use rellume.Lifter.Monad.{Lift, ◌>>=◌, pure, fail, checked, get_reg, create_load, Config}

-- LifterBase::MapReg. The index is cut to a uint8_t by the constructor of X86Reg.
unfoldable pub map_reg : FadecRegs → Reg → X86Reg
map_reg fd r = elim r.rt [
  | gpl ↦ if r.ri == fd.reg_ip then ip_reg else gp_reg (r.ri % 2 ^ 8)
  | gph ↦ gp_reg ((r.ri + 2 ^ 32 - fd.reg_ah) % 2 ^ 8)
  | RegType.vec ↦ vec_reg (r.ri % 2 ^ 8)
  | other_rt n ↦ invalid_reg
]

-- A register of the address, which is a general-purpose one.
abbrev pub gpl_reg : ℕ → Reg
gpl_reg ri = record { rt = gpl; ri = ri }

-- int64_t division by a scale, on 64-bit patterns.
abbrev pub sdiv64 : ℕ → ℕ → ℕ
sdiv64 off k = if ltb off (2 ^ 63) then off / k else 2 ^ 64 - (2 ^ 64 - off) / k

-- FD_SEGMENT is at most 7; 7 asks for the segment of the operand.
abbrev pub default_seg : ℕ
default_seg = 7

module _ {V : Type 0} (b : Builder V) (cfg : Config V) where
  open b use {ty, as_add, as_const, is_constant, is_null, const_int, null, bin, cast, gep}
  open b use {insert_element, shuffle}

  -- LifterBase::OpAddrConst
  unfoldable pub op_addr_const : ℕ → IrType → V
  op_addr_const addr ptr_ty =
      let based = λ (base : V).
        cast CastOp.bitcast (gep base (const_int 64 (u64 (addr + 2 ^ 64 - cfg.global_base_addr))))
          ptr_ty in
      if addr == 0 then null ptr_ty else elim cfg.global_base_value [
        | some base ↦ based base
        | none ↦ cast CastOp.inttoptr (const_int 64 addr) ptr_ty
      ]

  -- An addend of the address, if the register is there.
  unfoldable pub add_base : ℕ → Facet → V → Lift V V
  add_base base f res =
      if base == cfg.fadec.reg_none
      then pure res
      else do v ← get_reg b (map_reg cfg.fadec (gpl_reg base)) f; pure (bin BinaryOp.add res v)

  unfoldable pub add_scaled : ℕ → ℕ → ℕ → Facet → V → Lift V V
  add_scaled bits index exponent f res =
      if scale cfg.fadec index exponent == 0 then pure res else do
        ireg ← get_reg b (map_reg cfg.fadec (gpl_reg index)) f
        let scaled_val = const_int bits (scale cfg.fadec index exponent)
        pure (bin BinaryOp.add res (bin BinaryOp.mul ireg scaled_val))

  abbrev has_segment : ℕ → Bool
  has_segment seg = seg == cfg.fadec.reg_fs || seg == cfg.fadec.reg_gs

  -- The base of the segment: an address space, or a load from the CPU struct.
  unfoldable pub add_segment : ℕ → V → Lift V (ℕ × V)
  add_segment seg res =
      if has_segment seg
      then (if cfg.use_native_segment_base
          then pure (if seg == cfg.fadec.reg_fs then 257 else 256, res)
          else do
            let slot = if seg == cfg.fadec.reg_fs then cfg.sptr fsbase else cfg.sptr gsbase
            segbase ← create_load b (int 64) slot 0
            pure (0, bin BinaryOp.add res segbase))
      else pure (0, res)

  -- The first branch of OpAddr, by integer arithmetic.
  unfoldable pub op_addr_int : (base index exponent disp addrsz : ℕ) → IrType → ℕ → Lift V V
  unfolding add_base add_scaled add_segment
  op_addr_int base index exponent disp addrsz element_type seg = do
    let f = if addrsz == 8 then Facet.i64 else Facet.i32
    let bits = 8 * addrsz
    res ← add_base base f (const_int bits disp)
    res ← add_scaled bits index exponent f res
    (addrspace, res) ← add_segment seg res
    pure (cast CastOp.inttoptr (cast CastOp.zext res (int 64)) (ptr element_type addrspace))

  -- The pointer type in whose units the index counts.
  abbrev scale_type : ℕ → IrType → IrType
  scale_type sc element_type =
      if sc * 8 == primitive_bits element_type then ptr element_type 0 else ptr (int (sc * 8)) 0

  -- The displacement, in units of the scale where that is exact.
  abbrev add_disp : ℕ → ℕ → IrType → V → V
  add_disp sc disp element_type base =
      if disp == 0
      then base
      else if not (sc == 0) && disp % sc == 0
      then gep (cast CastOp.bitcast base (scale_type sc element_type))
          (const_int 64 (sdiv64 disp sc))
      else gep (cast CastOp.bitcast base (ptr (int 8) 0)) (const_int 64 disp)

  unfoldable pub op_addr_base : (base sc disp : ℕ) → IrType → Lift V V
  unfolding op_addr_const
  op_addr_base base sc disp element_type =
      if base == cfg.fadec.reg_none then pure (op_addr_const disp (ptr element_type 0)) else do
        let r = map_reg cfg.fadec (gpl_reg base)
        base_ptr ← get_reg b r Facet.ptr
        if is_constant base_ptr
            then (do
              base_int ← get_reg b r Facet.i64
              addr ← checked (as_const base_int)
              pure (op_addr_const (u64 (addr + disp)) (ptr element_type 0)))
            else pure (add_disp sc disp element_type base_ptr)

  -- The second branch of OpAddr, by pointer arithmetic.
  unfoldable pub op_addr_ptr : (base index exponent disp : ℕ) → IrType → Lift V V
  unfolding op_addr_base
  op_addr_ptr base index exponent disp element_type = do
    let elem_ptr_ty = ptr element_type 0
    let sc = scale cfg.fadec index exponent
    base_ptr ← op_addr_base base sc disp element_type
    if sc == 0 then pure (cast CastOp.bitcast base_ptr elem_ptr_ty) else do
      offset ← get_reg b (map_reg cfg.fadec (gpl_reg index)) Facet.i64
      let res =
          if is_constant base_ptr && is_null base_ptr
          then cast CastOp.inttoptr (bin BinaryOp.mul offset (const_int 64 sc)) elem_ptr_ty
          else gep (cast CastOp.bitcast base_ptr (scale_type sc element_type)) offset
      pure (cast CastOp.bitcast res elem_ptr_ty)

  -- LifterBase::OpAddr
  unfoldable pub op_addr : Op → IrType → ℕ → Lift V V
  unfolding op_addr_int op_addr_ptr
  op_addr (mem_op size base index exponent disp _ addrsz) element_type seg =
      if has_segment seg || not (addrsz == 8)
      then op_addr_int base index exponent disp addrsz element_type seg
      else op_addr_ptr base index exponent disp element_type
  op_addr o element_type seg = fail
