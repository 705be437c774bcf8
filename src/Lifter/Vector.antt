-- ===== src/Lifter/Vector.antt =====
-- src/lifter-operand.cc: OpStoreVec, and the operand accesses that the SSE instructions share.
use rellume.Prelude.{ℕ, ◌+◌, ◌/◌, ◌==◌, ltb, if◌then◌else◌, not, Bool, false, List, map, ◌=<<◌}
use rellume.Facet.{Facet, vnt, ivec}
use rellume.Register.{X86Reg}
use rellume.Instr.{Op, reg_op, mem_op}
use rellume.Ir.{Builder, IrType, int, vector, primitive_bits, from_type, CastOp}
use rellume.RegFile.Access.{below}
use rellume.Lifter.Monad.{
  Lift, ◌>>=◌, ◌>>◌, pure, fail, checked, get_reg, set_reg, set_reg_facet, create_store, Config,
}
use rellume.Lifter.Operand.{
  Alignment, align_imp, alignment_bytes, map_reg, op_addr, op_load_at, default_seg,
}

-- The element type of a vector, and a scalar type itself.
abbrev pub element_type : IrType → IrType
element_type (vector t n) = t
element_type t = t

-- The two masks by which a vector of `n` elements goes to the begin of one of `full`: first it is
-- enlarged, then it is joined with the old elements.
abbrev pub enlarge_mask : ℕ → ℕ → List ℕ
enlarge_mask full n = map (λ i. if ltb i n then i else n) (below full)

abbrev pub join_mask : ℕ → ℕ → List ℕ
join_mask full n = map (λ i. i + (if ltb i n then 0 else full)) (below full)

module _ {V : Type 0} (b : Builder V) where
  open b use {ty, null, insert_element, shuffle}

  -- The register's new value as a vector of `full_num` elements.
  abbrev pub fill_register : V → ℕ → V → V
  fill_register v full_num full = elim (ty v) [
    | vector t n ↦
        shuffle (shuffle v (null (ty v)) (enlarge_mask full_num n)) full (join_mask full_num n)
    | _ ↦ insert_element full v 0
  ]

module _ {V : Type 0} (b : Builder V) (cfg : Config V) where
  open b use {ty, null, cast}

  -- OpLoad with an alignment
  abbrev pub op_load_aligned : Op → Facet → Alignment → Lift V V
  op_load_aligned o f alignment = op_load_at b cfg o f alignment default_seg

  -- OpAddr with the segment of the operand
  unfoldable pub operand_addr : Op → IrType → Lift V V
  operand_addr (mem_op size base index exponent disp seg addrsz) t =
      op_addr b cfg (mem_op size base index exponent disp seg addrsz) t seg
  operand_addr o t = fail

  -- OpStoreVec to a register; a vector register has 128 bits.
  unfoldable pub store_vec_reg : X86Reg → V → Bool → Lift V (Unit {0})
  store_vec_reg r v avx =
      if primitive_bits (ty v) == 128
      then (do
        set_reg b r ivec (cast CastOp.bitcast v (int 128))
        f ← checked (from_type (ty v))
        set_reg_facet b r f v)
      else do
        let elem_ty = element_type (ty v)
        let full_num = 128 / primitive_bits elem_ty
        full_facet ← checked (vnt full_num =<< from_type elem_ty)
        full ← if avx then pure (null (vector elem_ty full_num)) else get_reg b r full_facet
        let filled = fill_register b v full_num full
        set_reg b r ivec (cast CastOp.bitcast filled (int 128))
        set_reg_facet b r full_facet filled
        f ← checked (from_type (ty v))
        set_reg_facet b r f v

  -- LifterBase::OpStoreVec
  unfoldable pub store_vec_at : Op → V → Bool → Alignment → Lift V (Unit {0})
  unfolding store_vec_reg
  store_vec_at (mem_op size base index exponent disp seg addrsz) v avx alignment = do
    addr ← op_addr b cfg (mem_op size base index exponent disp seg addrsz) (ty v) seg
    create_store b v addr (alignment_bytes alignment (not avx) (ty v))
  store_vec_at (reg_op size r) v avx alignment = store_vec_reg (map_reg cfg.fadec r) v avx
  store_vec_at o v avx alignment = fail

  -- with its default arguments
  unfoldable pub store_vec : Op → V → Lift V (Unit {0})
  unfolding store_vec_at
  store_vec o v = store_vec_at o v false align_imp
