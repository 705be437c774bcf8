-- ===== src/Register.antt =====
-- src/regfile.h: the registers, and the bit of the sets of dirty and cleaned registers that stands
-- for a register. `none` is a failed assertion.
pub mod Laws
use rellume.Prelude.{
  ℕ, ◌+◌, ◌==◌, ltb, if◌then◌else◌, ◌&&◌, Bool, true, false, Option, none, some, List, [], ◌∷◌,
}
use rellume.Facet.{Facet}

pub data RegKind : Type 0 where
  invalid gp ip eflags vec : RegKind

abbrev pub kind_index : RegKind → ℕ
kind_index RegKind.invalid = 0
kind_index RegKind.gp = 1
kind_index RegKind.ip = 2
kind_index RegKind.eflags = 3
kind_index RegKind.vec = 4

pub record X86Reg : Type 0 where
  pub kind : RegKind
  pub index : ℕ

abbrev pub reg_eq : X86Reg → X86Reg → Bool
reg_eq a b = kind_index a.kind == kind_index b.kind && a.index == b.index

-- The index is stored in a uint8_t; the callers pass numbers below 16.
abbrev pub gp_reg : ℕ → X86Reg
gp_reg idx = record { kind = RegKind.gp; index = idx }

abbrev pub vec_reg : ℕ → X86Reg
vec_reg idx = record { kind = RegKind.vec; index = idx }

abbrev pub rax : X86Reg
rax = gp_reg 0

abbrev pub rcx : X86Reg
rcx = gp_reg 1

abbrev pub rdx : X86Reg
rdx = gp_reg 2

abbrev pub rbx : X86Reg
rbx = gp_reg 3

abbrev pub rsp : X86Reg
rsp = gp_reg 4

abbrev pub rbp : X86Reg
rbp = gp_reg 5

abbrev pub rsi : X86Reg
rsi = gp_reg 6

abbrev pub rdi : X86Reg
rdi = gp_reg 7

abbrev pub ip_reg : X86Reg
ip_reg = record { kind = RegKind.ip; index = 0 }

abbrev pub eflags_reg : X86Reg
eflags_reg = record { kind = RegKind.eflags; index = 0 }

abbrev pub invalid_reg : X86Reg
invalid_reg = record { kind = RegKind.invalid; index = 0 }

abbrev pub is_gp : X86Reg → Bool
is_gp r = kind_index r.kind == 1

abbrev flag_bit : Facet → Option ℕ
flag_bit Facet.of = some (17 + 0)
flag_bit Facet.sf = some (17 + 1)
flag_bit Facet.zf = some (17 + 2)
flag_bit Facet.af = some (17 + 3)
flag_bit Facet.pf = some (17 + 4)
flag_bit Facet.cf = some (17 + 5)
flag_bit Facet.df = some (17 + 6)
flag_bit f = none

abbrev bit_of_kind : RegKind → ℕ → Facet → Option ℕ
bit_of_kind RegKind.gp idx f = some (0 + idx)
bit_of_kind RegKind.ip idx f = some 16
bit_of_kind RegKind.eflags idx f = flag_bit f
bit_of_kind RegKind.vec idx f = some (24 + idx)
bit_of_kind RegKind.invalid idx f = none

-- RegisterSetBitIdx
unfoldable pub register_set_bit_idx : X86Reg → Facet → Option ℕ
register_set_bit_idx r f = bit_of_kind r.kind r.index f
