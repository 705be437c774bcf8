-- ===== src/Lifter/Monad.antt =====
-- src/lifter-private.h, src/config.h and src/function-info.h: the state of LifterBase, what it reads
-- of the configuration, and its accessors of the register file.
use rellume.Prelude.{
  ℕ, ◌+◌, ◌-◌, ◌^◌, if◌then◌else◌, Bool, true, false, Option, none, some, List, [], ◌∷◌, ◌++◌, suc,
}
use rellume.Facet.{Facet}
use rellume.Register.{X86Reg, eflags_reg, ip_reg}
use rellume.Instr.{FadecRegs, InstrType, u64}
use rellume.Ir.{Builder, IrType, int, BinaryOp, CastOp}
use rellume.RegFile.{RegFile, RegisterSet}
use rellume.RegFile.Access.{get_reg as rf_get_reg, set_reg as rf_set_reg}

-- An instruction of the IR that touches memory or leaves the function, with its alignment.
pub data Effect (V : Type 0) : Type 0 where
  load : IrType → V → ℕ → Effect V
  store : V → V → ℕ → Effect V
  -- a call of a function, by its name, and the returns; `none` is an argument never set
  call : ℕ → List (Option V) → Effect V
  ret_void : Effect V
  ret_aggregate : List (Option V) → Effect V
  ret_call : V → Effect V
  -- the fence, the prefetch intrinsic, a memset of zeros by its size and alignment, and an
  -- assumption on the alignment of a pointer
  fence : Effect V
  prefetch : V → ℕ → ℕ → Effect V
  memset : V → ℕ → ℕ → Effect V
  assume_aligned : V → ℕ → Effect V

-- CallConvPack: `stores` gives the position of the store of a field among the effects.
pub record CallConvPack : Type 0 where
  pub block_dirty_regs : RegisterSet
  pub bb : ℕ
  pub stores : ℕ → Option ℕ

pub record LiftState (V : Type 0) : Type 0 where
  pub regfile : RegFile V
  pub effects : List (Effect V)
  pub loads : ℕ
  pub call_conv_packs : List CallConvPack

pub data CallConv : Type 0 where
  invalid_conv sptr_conv hhvm_conv : CallConv

-- An llvm::Function that lifted code calls, with the convention that CallConv::FromFunction finds.
pub record Function : Type 0 where
  pub name : ℕ
  pub arg_size : ℕ
  pub conv : CallConv
  pub returns_void : Bool

-- The fields of LLConfig and FunctionInfo that are read while an instruction is lifted.
pub record Config (V : Type 0) : Type 0 where
  pub enable_overflow_intrinsics : Bool
  pub call_ret_clobber_flags : Bool
  pub use_native_segment_base : Bool
  pub global_base_addr : ℕ
  pub global_base_value : Option V
  pub entry_ip : ℕ
  pub entry_ip_value : V
  pub sptr_raw : V
  pub sptr : ℕ → V
  pub callconv : CallConv
  pub call_function : Option Function
  pub syscall_implementation : Option Function
  pub instr_overrides : InstrType → Option Function
  pub fadec : FadecRegs

-- A step of the lifter; `none` is a failed assertion.
abbrev pub Lift : Type 0 → Type 0 → Type 0
Lift V A = LiftState V → Option (A × LiftState V)

infixl 5 ◌>>=◌ ◌>>◌
abbrev pub ◌>>=◌ : {V A B : Type 0} → Lift V A → (A → Lift V B) → Lift V B
◌>>=◌ m f s = elim (m s) [ none ↦ none | some (a, s') ↦ f a s' ]

abbrev pub ◌>>◌ : {V B : Type 0} → Lift V (Unit {0}) → Lift V B → Lift V B
m >> k = m >>= λ _. k

abbrev pub pure : {V A : Type 0} → A → Lift V A
pure a s = some (a, s)

abbrev pub fail : {V A : Type 0} → Lift V A
fail s = none

-- A value that an assertion guards.
abbrev pub checked : {V A : Type 0} → Option A → Lift V A
checked none s = none
checked (some a) s = some (a, s)

-- An assertion.
abbrev pub require : {V : Type 0} → Bool → Lift V (Unit {0})
require true s = some (tt, s)
require false s = none

abbrev pub skip : {V : Type 0} → Lift V (Unit {0})
skip s = some (tt, s)

module _ {V : Type 0} (b : Builder V) where
  open b use {ty, const_int, undef, bin, cast, loaded}

  -- LifterBase::GetReg
  unfoldable pub get_reg : X86Reg → Facet → Lift V V
  get_reg r f s = elim (rf_get_reg b r f s.regfile) [
    | none ↦ none
    | some (v, rf) ↦ some (v, record s { regfile = rf })
  ]

  unfoldable pub store_reg : X86Reg → Facet → V → Bool → Lift V (Unit {0})
  store_reg r f v clear s = elim (rf_set_reg b r f v clear s.regfile) [
    | none ↦ none
    | some rf ↦ some (tt, record s { regfile = rf })
  ]

  -- LifterBase::SetReg: all other facets are cleared.
  unfoldable pub set_reg : X86Reg → Facet → V → Lift V (Unit {0})
  unfolding store_reg
  set_reg r f v = store_reg r f v true

  -- LifterBase::SetRegFacet
  unfoldable pub set_reg_facet : X86Reg → Facet → V → Lift V (Unit {0})
  unfolding store_reg
  set_reg_facet r f v = store_reg r f v false

  -- LifterBase::SetRegPtr
  unfoldable pub set_reg_ptr : X86Reg → V → Lift V (Unit {0})
  set_reg_ptr r v = do
    set_reg r Facet.i64 (cast CastOp.ptrtoint v (int 64))
    set_reg_facet r Facet.ptr v

  -- LifterBase::GetFlag and SetFlag
  unfoldable pub get_flag : Facet → Lift V V
  unfolding get_reg
  get_flag f = get_reg eflags_reg f

  unfoldable pub set_flag : Facet → V → Lift V (Unit {0})
  unfolding set_reg_facet
  set_flag f v = set_reg_facet eflags_reg f v

  -- LifterBase::SetFlagUndef
  unfoldable pub set_flag_undef : List Facet → Lift V (Unit {0})
  set_flag_undef [] = skip
  set_flag_undef (f ∷ fs) = do set_flag f (undef (int 1)); set_flag_undef fs

  -- CreateLoad and CreateStore, with the alignment in bytes.
  unfoldable pub create_load : IrType → V → ℕ → Lift V V
  create_load t addr align s = some (
    loaded s.loads t addr,
    record s { effects = s.effects ++ load t addr align ∷ []; loads = suc s.loads },
  )

  unfoldable pub create_store : V → V → ℕ → Lift V (Unit {0})
  create_store v addr align s =
      some (tt, record s { effects = s.effects ++ store v addr align ∷ [] })

  unfoldable pub emit : Effect V → Lift V (Unit {0})
  emit e s = some (tt, record s { effects = s.effects ++ e ∷ [] })

  -- LifterBase::SetIP; with `nofold` the address is hidden behind a bit cast.
  unfoldable pub set_ip : Config V → ℕ → Bool → Lift V (Unit {0})
  set_ip cfg inst_addr nofold =
      let off = const_int 64 (u64 (inst_addr + 2 ^ 64 - cfg.entry_ip)) in
      let rip = bin BinaryOp.add cfg.entry_ip_value off in
      set_reg ip_reg Facet.i64 (if nofold then cast CastOp.bitcast rip (ty rip) else rip)
