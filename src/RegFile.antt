-- ===== src/RegFile.antt =====
-- src/regfile.cc: the state of the register file of a basic block, which keeps the values of the registers in
-- several facets. The arrays are functions of the index; the callers' indices are below 16.
pub mod Access
use rellume.Prelude.{
  ℕ, ◌/◌, ◌==◌, ltb, leb, if◌then◌else◌, ◌&&◌, ◌||◌, Bool, true, false, Option, none, some, List,
  [], ◌∷◌, ◌++◌, ◌>>=◌, ◌>>◌, assert,
}
use rellume.Facet
use rellume.Facet.{Facet, facet_eq, ivec}
use rellume.Register
use rellume.Register.{X86Reg, RegKind, reg_eq, register_set_bit_idx}
use rellume.Ir.{
  Builder, IrType, BinaryOp, CastOp, Intrinsic, type_eq, is_pointer, primitive_bits, facet_type,
}

-- DeferredValueBase: nothing, the generator of a PHI node, or a value.
pub data Deferred (V : Type 0) : Type 0 where
  empty : Deferred V
  generator : Deferred V
  value : V → Deferred V

pub record PhiDesc (V : Type 0) : Type 0 where
  pub reg : X86Reg
  pub facet : Facet
  pub phi : V

-- The bits of a RegisterSet.
abbrev pub RegisterSet : Type 0
RegisterSet = ℕ → Bool

-- RegFile::impl, with the vector of PHI nodes that the generators append to.
pub record RegFile (V : Type 0) : Type 0 where
  pub insert_block : ℕ
  pub regs_gp : ℕ → Facet → Deferred V
  pub regs_sse : ℕ → Facet → Deferred V
  pub reg_ip : Deferred V
  pub flags : Facet → Deferred V
  pub dirty_regs : RegisterSet
  pub cleaned_regs : RegisterSet
  pub phis : List (PhiDesc V)

abbrev pub set_bit : RegisterSet → ℕ → Bool → RegisterSet
set_bit s n v = λ k. if n == k then v else s k

-- The facets of ValueMapGp, ValueMapSse and ValueMapFlags.
unfoldable pub gp_has : Facet → Bool
gp_has Facet.i64 = true
gp_has Facet.i32 = true
gp_has Facet.i16 = true
gp_has Facet.i8 = true
gp_has Facet.i8h = true
gp_has Facet.ptr = true
gp_has f = false

unfoldable pub sse_has : Facet → Bool
sse_has Facet.i128 = true
sse_has Facet.i8 = true
sse_has Facet.v16i8 = true
sse_has Facet.i16 = true
sse_has Facet.v8i16 = true
sse_has Facet.i32 = true
sse_has Facet.v4i32 = true
sse_has Facet.i64 = true
sse_has Facet.v2i64 = true
sse_has Facet.f32 = true
sse_has Facet.v4f32 = true
sse_has Facet.f64 = true
sse_has Facet.v2f64 = true
sse_has f = false

unfoldable pub flags_has : Facet → Bool
flags_has Facet.zf = true
flags_has Facet.sf = true
flags_has Facet.pf = true
flags_has Facet.cf = true
flags_has Facet.of = true
flags_has Facet.af = true
flags_has Facet.df = true
flags_has f = false

-- What the pointer that AccessRegFacet returns points to.
pub data Slot : Type 0 where
  gp_slot sse_slot : ℕ → Facet → Slot
  ip_slot : Slot
  flag_slot : Facet → Slot

abbrev slot_of_kind : RegKind → ℕ → Facet → Option Slot
slot_of_kind RegKind.gp idx f = if gp_has f then some (gp_slot idx f) else none
slot_of_kind RegKind.ip idx f = if facet_eq f Facet.i64 then some ip_slot else none
slot_of_kind RegKind.eflags idx f = if flags_has f then some (flag_slot f) else none
slot_of_kind RegKind.vec idx f = if sse_has f then some (sse_slot idx f) else none
slot_of_kind RegKind.invalid idx f = none

-- RegFile::impl::AccessRegFacet; `none` is the null pointer.
unfoldable pub access_reg_facet : X86Reg → Facet → Option Slot
unfolding gp_has sse_has flags_has facet_eq
access_reg_facet r f = slot_of_kind r.kind r.index f

module _ {V : Type 0} where
  abbrev set_at : (ℕ → Facet → Deferred V) → ℕ → Facet → Deferred V → ℕ → Facet → Deferred V
  set_at a n f d m g = if n == m && facet_eq f g then d else a m g

  unfoldable pub read_slot : RegFile V → Slot → Deferred V
  read_slot rf (gp_slot n f) = rf.regs_gp n f
  read_slot rf (sse_slot n f) = rf.regs_sse n f
  read_slot rf ip_slot = rf.reg_ip
  read_slot rf (flag_slot f) = rf.flags f

  unfoldable pub write_slot : RegFile V → Slot → Deferred V → RegFile V
  unfolding facet_eq
  write_slot rf (gp_slot n f) d = record rf { regs_gp = set_at rf.regs_gp n f d }
  write_slot rf (sse_slot n f) d = record rf { regs_sse = set_at rf.regs_sse n f d }
  write_slot rf ip_slot d = record rf { reg_ip = d }
  write_slot rf (flag_slot f) d = record rf { flags = λ g. if facet_eq f g then d else rf.flags g }

  unfoldable pub clear_gp : RegFile V → ℕ → RegFile V
  clear_gp rf n = record rf { regs_gp = λ m f. if n == m then empty else rf.regs_gp m f }

  unfoldable pub clear_sse : RegFile V → ℕ → RegFile V
  clear_sse rf n = record rf { regs_sse = λ m f. if n == m then empty else rf.regs_sse m f }

  -- RegFile::impl::impl, on a new insert block
  unfoldable pub new : ℕ → RegFile V
  new block = record {
    insert_block = block;
    regs_gp = λ n f. empty;
    regs_sse = λ n f. empty;
    reg_ip = empty;
    flags = λ f. empty;
    dirty_regs = λ n. false;
    cleaned_regs = λ n. false;
    phis = [];
  }

  -- RegFile::impl::Clear
  unfoldable pub clear : RegFile V → RegFile V
  clear rf = record rf {
    regs_gp = λ n f. if ltb n 16 then empty else rf.regs_gp n f;
    regs_sse = λ n f. if ltb n 16 then empty else rf.regs_sse n f;
    reg_ip = empty;
    flags = λ f. empty;
  }

  -- RegFile::impl::InitWithPHIs
  unfoldable pub init_with_phis : Bool → RegFile V → RegFile V
  unfolding facet_eq
  init_with_phis all_facets rf = record rf {
    regs_gp = λ n f. if all_facets || facet_eq f Facet.i64 then generator else rf.regs_gp n f;
    regs_sse = λ n f. if all_facets || facet_eq f ivec then generator else rf.regs_sse n f;
    reg_ip = generator;
    flags = λ f. generator;
  }
