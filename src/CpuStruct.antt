-- ===== src/CpuStruct.antt =====
-- The CPU struct: data/rellume/cpustruct.json, the SptrIdx numbers and the register table that are
-- generated from it by data/rellume/cpustruct_parser.py, for src/function-info.h and src/callconv.cc.
use rellume.Prelude.{ℕ, List, [], ◌∷◌}
use rellume.Facet.{Facet}
use rellume.Register.{X86Reg, gp_reg, vec_reg, ip_reg, eflags_reg}

-- SptrIdx numbers the named fields in order.
abbrev pub fsbase : ℕ
fsbase = 24

abbrev pub gsbase : ℕ
gsbase = 25

-- SptrIdx::MAX
abbrev pub sptr_max : ℕ
sptr_max = 42

-- A row RELLUME_MAPPED_REG(nameu, off, reg, facet).
pub record Entry : Type 0 where
  pub sptr_idx : ℕ
  pub reg : X86Reg
  pub facet : Facet

abbrev pub row : ℕ → X86Reg → Facet → Entry
row idx reg facet = record { sptr_idx = idx; reg = reg; facet = facet }

-- cpu_struct_entries
unfoldable pub cpu_struct_entries : List Entry
cpu_struct_entries =
    row 0 ip_reg Facet.i64
    ∷ row 1 (gp_reg 0) Facet.i64
    ∷ row 2 (gp_reg 1) Facet.i64
    ∷ row 3 (gp_reg 2) Facet.i64
    ∷ row 4 (gp_reg 3) Facet.i64
    ∷ row 5 (gp_reg 4) Facet.i64
    ∷ row 6 (gp_reg 5) Facet.i64
    ∷ row 7 (gp_reg 6) Facet.i64
    ∷ row 8 (gp_reg 7) Facet.i64
    ∷ row 9 (gp_reg 8) Facet.i64
    ∷ row 10 (gp_reg 9) Facet.i64
    ∷ row 11 (gp_reg 10) Facet.i64
    ∷ row 12 (gp_reg 11) Facet.i64
    ∷ row 13 (gp_reg 12) Facet.i64
    ∷ row 14 (gp_reg 13) Facet.i64
    ∷ row 15 (gp_reg 14) Facet.i64
    ∷ row 16 (gp_reg 15) Facet.i64
    ∷ row 17 eflags_reg Facet.zf
    ∷ row 18 eflags_reg Facet.sf
    ∷ row 19 eflags_reg Facet.pf
    ∷ row 20 eflags_reg Facet.cf
    ∷ row 21 eflags_reg Facet.of
    ∷ row 22 eflags_reg Facet.af
    ∷ row 23 eflags_reg Facet.df
    ∷ row 26 (vec_reg 0) Facet.i128
    ∷ row 27 (vec_reg 1) Facet.i128
    ∷ row 28 (vec_reg 2) Facet.i128
    ∷ row 29 (vec_reg 3) Facet.i128
    ∷ row 30 (vec_reg 4) Facet.i128
    ∷ row 31 (vec_reg 5) Facet.i128
    ∷ row 32 (vec_reg 6) Facet.i128
    ∷ row 33 (vec_reg 7) Facet.i128
    ∷ row 34 (vec_reg 8) Facet.i128
    ∷ row 35 (vec_reg 9) Facet.i128
    ∷ row 36 (vec_reg 10) Facet.i128
    ∷ row 37 (vec_reg 11) Facet.i128
    ∷ row 38 (vec_reg 12) Facet.i128
    ∷ row 39 (vec_reg 13) Facet.i128
    ∷ row 40 (vec_reg 14) Facet.i128
    ∷ row 41 (vec_reg 15) Facet.i128
    ∷ []
