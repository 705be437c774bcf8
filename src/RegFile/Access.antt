-- ===== src/RegFile/Access.antt =====
-- src/regfile.cc: RegFile::impl::GetReg and SetReg, over an IR builder. `none` is a failed assertion.
-- Instructions are inserted into the insert block, before its terminator if it has one.
use rellume.Prelude.{
  ℕ, ◌/◌, ltb, leb, if◌then◌else◌, Bool, true, false, Option, none, some, List, [], ◌∷◌, ◌++◌,
  ◌>>=◌, ◌>>◌, assert, zero, suc,
}
use rellume.Facet.{Facet, facet_eq, ivec}
use rellume.Register.{X86Reg, RegKind, register_set_bit_idx}
use rellume.Ir.{
  Builder, IrType, int, vector, BinaryOp, CastOp, Intrinsic, type_eq, is_pointer, primitive_bits,
  facet_type,
}
use rellume.Ir
use rellume.RegFile.{
  Deferred, empty, generator, value, RegFile, Slot, set_bit, access_reg_facet, read_slot,
  write_slot, clear_gp, clear_sse,
}

-- 0, 1, …, n - 1
abbrev pub below : ℕ → List ℕ
below zero = []
below (suc n) = below n ++ n ∷ []

module _ {V : Type 0} (b : Builder V) where
  open b use {ty, is_phi, const_int, undef, bin, cast, intrinsic, extract_element, shuffle, phi}

  -- DeferredValueBase::get; the result is the null pointer if nothing is stored.
  unfoldable pub force :
      X86Reg → Facet → RegFile V → Slot → Deferred V → Option (Option V × RegFile V)
  force r f rf s empty = some (none, rf)
  force r f rf s (value v) = some (some v, rf)
  force r f rf s generator = do
    t ← facet_type f
    let v = phi rf.insert_block r f t
    let rf' = write_slot rf s (value v)
    some (some v, record rf' { phis = rf.phis ++ record { reg = r; facet = f; phi = v } ∷ [] })

  -- RegFile::impl::GetRegFacet
  unfoldable pub get_reg_facet : X86Reg → Facet → RegFile V → Option (Option V × RegFile V)
  unfolding force access_reg_facet read_slot write_slot
  get_reg_facet r f rf = elim (access_reg_facet r f) [
    | none ↦ some (none, rf)
    | some s ↦ force r f rf s (read_slot rf s)
  ]

  -- `*facet_entry = res`, if there is an entry for the facet.
  unfoldable pub keep : X86Reg → Facet → V → RegFile V → RegFile V
  unfolding access_reg_facet write_slot
  keep r f v rf = elim (access_reg_facet r f) [ none ↦ rf | some s ↦ write_slot rf s (value v) ]

  -- The switch of GetReg for a general-purpose register, from its 64-bit value.
  unfoldable pub derive_gp : Facet → V → Option V
  derive_gp Facet.i64 native = some (cast CastOp.trunc native (int 64))
  derive_gp Facet.i32 native = some (cast CastOp.trunc native (int 32))
  derive_gp Facet.i16 native = some (cast CastOp.trunc native (int 16))
  derive_gp Facet.i8 native = some (cast CastOp.trunc native (int 8))
  derive_gp Facet.i8h native =
      some (cast CastOp.trunc (bin BinaryOp.lshr native (const_int 64 8)) (int 8))
  derive_gp Facet.ptr native = some (cast CastOp.inttoptr native (Ir.ptr (int 8) 0))
  derive_gp f native = none

  -- A vector of the first elements of the register.
  unfoldable pub derive_vector : IrType → ℕ → V → V
  derive_vector elem_ty target_cnt native =
      let native_cnt = primitive_bits (ty native) / primitive_bits elem_ty in
      let native_vec_ty = vector elem_ty native_cnt in
      let res = cast CastOp.bitcast native native_vec_ty in
      if ltb target_cnt native_cnt
      then shuffle res (undef native_vec_ty) (below target_cnt)
      else res

  -- The cases of GetReg that give a vector of a vector register.
  unfoldable pub get_vector : X86Reg → Facet → IrType → ℕ → RegFile V → Option (V × RegFile V)
  get_vector r f elem_ty cnt rf = do
    (native, rf1) ← get_reg_facet r ivec rf
    native ← native
    (value_128, rf2) ← get_reg_facet r Facet.i128 rf1
    let source =
        if leb (primitive_bits (vector elem_ty cnt)) 128
        then elim value_128 [ some v ↦ v | none ↦ native ]
        else native
    let res = derive_vector elem_ty cnt source
    some (res, keep r f res rf2)

  -- GetReg(reg, full) and the first element of it, with the cached vector if there is one.
  unfoldable pub get_element :
      X86Reg → Facet → Facet → IrType → ℕ → RegFile V → Option (V × RegFile V)
  get_element r f full elem_ty cnt rf = do
    (native, rf0) ← get_reg_facet r ivec rf
    _ ← native
    (cached, rf1) ← get_reg_facet r full rf0
    (v, rf2) ← elim cached [ some v ↦ some (v, rf1) | none ↦ get_vector r full elem_ty cnt rf1 ]
    let res = extract_element v 0
    some (res, keep r f res rf2)

  -- The switch of GetReg for a vector register.
  unfoldable pub derive_vec : X86Reg → Facet → RegFile V → Option (V × RegFile V)
  derive_vec r Facet.i128 rf = do
    (native, rf1) ← get_reg_facet r ivec rf
    native ← native
    let res = cast CastOp.trunc native (int 128)
    some (res, keep r Facet.i128 res rf1)
  derive_vec r Facet.i8 rf = get_element r Facet.i8 Facet.v16i8 (int 8) 16 rf
  derive_vec r Facet.i16 rf = get_element r Facet.i16 Facet.v8i16 (int 16) 8 rf
  derive_vec r Facet.i32 rf = get_element r Facet.i32 Facet.v4i32 (int 32) 4 rf
  derive_vec r Facet.i64 rf = get_element r Facet.i64 Facet.v2i64 (int 64) 2 rf
  derive_vec r Facet.f32 rf = get_element r Facet.f32 Facet.v4f32 Ir.float 4 rf
  derive_vec r Facet.f64 rf = get_element r Facet.f64 Facet.v2f64 Ir.double 2 rf
  derive_vec r f rf = do
    t ← facet_type f
    elim t [ vector elem_ty cnt ↦ get_vector r f elem_ty cnt rf | _ ↦ none ]

  -- RegFile::impl::GetReg behind the test for a stored facet. `none` is a failed assertion, and also
  -- the null pointer that the code returns for the 64-bit facet of an instruction pointer without a
  -- value.
  unfoldable pub derive_reg : RegKind → X86Reg → Facet → RegFile V → Option (V × RegFile V)
  derive_reg RegKind.gp r f rf = do
    (native, rf1) ← get_reg_facet r Facet.i64 rf
    native ← native
    res ← derive_gp f native
    some (res, keep r f res rf1)
  derive_reg RegKind.ip r f rf = do
    (native, rf1) ← get_reg_facet r Facet.i64 rf
    native ← native
    if facet_eq f Facet.i64
        then some (native, rf1)
        else if facet_eq f Facet.ptr
        then some (cast CastOp.inttoptr native (Ir.ptr (int 8) 0), rf1)
        else none
  derive_reg RegKind.vec r f rf = derive_vec r f rf
  derive_reg RegKind.eflags r f rf = none
  derive_reg RegKind.invalid r f rf = none

  -- RegFile::impl::GetReg
  unfoldable pub get_reg : X86Reg → Facet → RegFile V → Option (V × RegFile V)
  get_reg r f rf = do
    (cached, rf1) ← get_reg_facet r f rf
    elim cached [ some v ↦ some (v, rf1) | none ↦ derive_reg r.kind r f rf1 ]

  -- The assertion of SetReg on the type of the value.
  unfoldable pub fits_facet : Facet → V → Bool
  fits_facet f v =
      if facet_eq f Facet.ptr
      then is_pointer (ty v)
      else elim (facet_type f) [ some t ↦ type_eq (ty v) t | none ↦ false ]

  -- `clearOthers`: the facets of the register become invalid.
  unfoldable pub clear_others : X86Reg → Facet → RegFile V → Option (RegFile V)
  clear_others r f rf = elim r.kind [
    | RegKind.gp ↦ if facet_eq f Facet.i64 then some (clear_gp rf r.index) else none
    | RegKind.vec ↦ if facet_eq f ivec then some (clear_sse rf r.index) else none
    | _ ↦ some rf
  ]

  -- RegFile::impl::SetReg
  unfoldable pub set_reg : X86Reg → Facet → V → Bool → RegFile V → Option (RegFile V)
  set_reg r f v clear_facets rf = do
    assert (fits_facet f v)
    rf1 ← if clear_facets then clear_others r f rf else some rf
    let v' = if is_phi v then intrinsic Intrinsic.ssa_copy (v ∷ []) else v
    elim (access_reg_facet r f) [
      | none ↦ if clear_facets then none else some rf1
      | some s ↦ do
        bit ← register_set_bit_idx r f
        let rf2 = write_slot rf1 s (value v')
        some (record rf2 { dirty_regs = set_bit rf2.dirty_regs bit true })
    ]
