-- ===== src/CallConv.antt =====
-- src/callconv.h and src/callconv.cc: the calling conventions of lifted functions, by which the
-- register file is written to the CPU struct and read back.
pub mod Laws
use rellume.Prelude.{
  ℕ, ◌==◌, ltb, if◌then◌else◌, ◌&&◌, ◌||◌, Bool, true, false, Option, none, some, List, [], ◌∷◌,
  ◌++◌, set, length, get_or, zero, suc,
}
use rellume.Register.{X86Reg, ip_reg, reg_eq, is_gp, register_set_bit_idx}
use rellume.RegFile.{RegFile, set_bit, clear}
use rellume.Ir.{Builder, int, facet_type}
use rellume.CpuStruct.{Entry, cpu_struct_entries}
use rellume.Lifter.Monad.{
  Lift, ◌>>=◌, ◌>>◌, pure, skip, checked, get_reg, store_reg, create_load, Config, store, call,
  ret_void, ret_aggregate, ret_call, CallConvPack, CallConv, invalid_conv, sptr_conv, hhvm_conv,
  Function, emit,
}

abbrev pub is_hhvm : CallConv → Bool
is_hhvm hhvm_conv = true
is_hhvm c = false

-- CallConv::CpuStructParamIdx
unfoldable pub cpu_struct_param_idx : CallConv → ℕ
cpu_struct_param_idx hhvm_conv = 1
cpu_struct_param_idx sptr_conv = 0
cpu_struct_param_idx invalid_conv = 0

unfoldable pub hhvm_is_host_reg : X86Reg → Bool
hhvm_is_host_reg r = reg_eq r ip_reg || is_gp r && ltb r.index 12

abbrev arg_indices : List ℕ
arg_indices = 10 ∷ 7 ∷ 6 ∷ 2 ∷ 3 ∷ 13 ∷ 5 ∷ 4 ∷ 8 ∷ 9 ∷ 11 ∷ 12 ∷ []

abbrev ret_indices : List ℕ
ret_indices = 8 ∷ 5 ∷ 4 ∷ 1 ∷ 13 ∷ 11 ∷ 3 ∷ 2 ∷ 6 ∷ 7 ∷ 9 ∷ 10 ∷ []

abbrev host_index : List ℕ → X86Reg → Option ℕ
host_index indices r =
    if hhvm_is_host_reg r
    then some (if is_gp r && ltb r.index 12 then get_or indices r.index 0 else 0)
    else none

-- `none` is the failed assertion of both functions.
unfoldable pub hhvm_arg_index : X86Reg → Option ℕ
unfolding hhvm_is_host_reg
hhvm_arg_index r = host_index arg_indices r

unfoldable pub hhvm_ret_index : X86Reg → Option ℕ
unfolding hhvm_is_host_reg
hhvm_ret_index r = host_index ret_indices r

abbrev pub nones : {V : Type 0} → ℕ → List (Option V)
nones zero = []
nones (suc n) = none ∷ nones n

abbrev map_option : {V : Type 0} → (ℕ → V) → Option ℕ → Option V
map_option f none = none
map_option f (some n) = some (f n)

-- The host registers that a pack has collected, and the stores that it has made.
pub record Packed (V : Type 0) : Type 0 where
  pub host : List (Option V)
  pub stores : ℕ → Option ℕ

module _ {V : Type 0} (b : Builder V) (cfg : Config V) where
  open b use {undef, called, extract_value, argument}

  abbrev pub get_regfile : Lift V (RegFile V)
  get_regfile s = some (s.regfile, s)

  abbrev pub put_regfile : RegFile V → Lift V (Unit {0})
  put_regfile rf s = some (tt, record s { regfile = rf })

  -- The register is written to its field, and is clean from here on.
  unfoldable pub pack_store : Entry → V → Packed V → Lift V (Packed V)
  pack_store e val p s = elim (register_set_bit_idx e.reg e.facet) [
    | none ↦ none
    | some bit ↦
        let rf = s.regfile in
        let rf' = record rf {
          dirty_regs = set_bit rf.dirty_regs bit false;
          cleaned_regs = set_bit rf.cleaned_regs bit true;
        } in
        let at : ℕ = length s.effects in
        let stores = λ (k : ℕ). if e.sptr_idx == k then some at else p.stores k in
        some (
          record p { stores = stores },
          record s { regfile = rf'; effects = s.effects ++ store val (cfg.sptr e.sptr_idx) 0 ∷ [] },
        )
  ]

  -- The loop of Pack.
  unfoldable pub pack_entries :
      CallConv → (X86Reg → Option ℕ) → List Entry → Packed V → Lift V (Packed V)
  pack_entries cconv host_idx [] p = pure p
  pack_entries cconv host_idx (e ∷ rest) p = do
    val ← get_reg b e.reg e.facet
    p' ←
        if is_hhvm cconv && hhvm_is_host_reg e.reg
        then (do at ← checked (host_idx e.reg); pure (record p { host = set p.host at (some val) }))
        else pack_store e val p
    pack_entries cconv host_idx rest p'

  -- Pack, from the list that the host registers are entered into
  unfoldable pub pack : CallConv → (X86Reg → Option ℕ) → List (Option V) → Lift V (List (Option V))
  pack cconv host_idx host s =
      let dirty = s.regfile.dirty_regs in
      let bb = s.regfile.insert_block in
      elim (pack_entries cconv host_idx cpu_struct_entries
        (record { host = host; stores = λ k. none }) s) [
          | none ↦ none
          | some (p, s') ↦
              let info : CallConvPack = record {
                block_dirty_regs = dirty;
                bb = bb;
                stores = p.stores;
              } in
              some (p.host, record s' { call_conv_packs = s'.call_conv_packs ++ info ∷ [] })
        ]

  -- A register that was loaded from its field is clean.
  unfoldable pub unpack_load : Entry → Lift V (Unit {0})
  unpack_load e = do
    bit ← checked (register_set_bit_idx e.reg e.facet)
    t ← checked (facet_type e.facet)
    val ← create_load b t (cfg.sptr e.sptr_idx) 0
    store_reg b e.reg e.facet val false
    rf ← get_regfile
    put_regfile (record rf { dirty_regs = set_bit rf.dirty_regs bit false })

  -- The loop of Unpack.
  unfoldable pub unpack_entries : CallConv → (X86Reg → Option V) → List Entry → Lift V (Unit {0})
  unpack_entries cconv host [] = skip
  unpack_entries cconv host (e ∷ rest) = do
    if is_hhvm cconv && hhvm_is_host_reg e.reg
        then (do val ← checked (host e.reg); store_reg b e.reg e.facet val false)
        else unpack_load e
    unpack_entries cconv host rest

  -- Unpack
  unfoldable pub unpack : CallConv → (X86Reg → Option V) → Lift V (Unit {0})
  unpack cconv host = do
    rf ← get_regfile
    put_regfile (clear rf)
    unpack_entries cconv host cpu_struct_entries

  -- CallConv::Return
  unfoldable pub return_conv : CallConv → Lift V (Unit {0})
  return_conv cconv = do
    let blank : List (Option V) =
        if is_hhvm cconv then set (nones 14) 12 (some (undef (int 64))) else []
    host ← pack cconv hhvm_ret_index blank
    emit b (if is_hhvm cconv then ret_aggregate host else ret_void)

  -- CallConv::UnpackParams
  unfoldable pub unpack_params : CallConv → Lift V (Unit {0})
  unpack_params cconv = unpack cconv (λ r. map_option argument (hhvm_arg_index r))

  -- CreateCall; the results of loads and calls are numbered together.
  unfoldable pub create_call : Function → List (Option V) → Lift V V
  create_call fn args s = some (
    called s.loads fn.name,
    record s { effects = s.effects ++ call fn.name args ∷ []; loads = suc s.loads },
  )

  -- CallConv::Call
  unfoldable pub call_conv : CallConv → Function → Bool → Lift V (Unit {0})
  call_conv cconv fn tail_call = do
    let args : List (Option V) =
        set (nones fn.arg_size) (cpu_struct_param_idx cconv) (some cfg.sptr_raw)
    host ← pack cconv hhvm_arg_index args
    result ← create_call fn host
    if tail_call
        then emit b (if fn.returns_void then ret_void else ret_call result)
        else unpack cconv (λ r. map_option (extract_value result) (hhvm_ret_index r))
