-- ===== src/Lifter/FlagState.antt =====
-- What setting and reading a flag does to the state of the lifter.
use rellume.Prelude.{
  ℕ, ◌≡◌, if◌then◌else◌, Bool, true, false, Option, none, some, [], ◌∷◌, arith, refl, ap,
  Bool-cases, inl, inr,
}
use rellume.Facet.{Facet, facet_eq}
use rellume.Register.{eflags_reg, register_set_bit_idx}
use rellume.Ir.{Builder, int, Intrinsic, type_eq, facet_type}
use rellume.Ir.Meaning.{Meaning}
use rellume.RegFile.{
  Deferred, empty, generator, value, set_bit, flags_has, access_reg_facet, write_slot,
}
use rellume.RegFile.Access.{fits_facet, clear_others}
use rellume.RegFile.Access
use rellume.Lifter.Monad.{LiftState, set_flag}

module _ {V : Type 0} (b : Builder V) where
  -- A PHI node is stored behind a copy.
  abbrev pub stored : V → V
  stored v = if b.is_phi v then b.intrinsic Intrinsic.ssa_copy (v ∷ []) else v

  abbrev flag_position : Facet → ℕ
  flag_position f = elim (register_set_bit_idx eflags_reg f) [ none ↦ 0 | some n ↦ n ]

  -- The state in which a flag has a new value.
  unfoldable pub put_flag : Facet → V → LiftState V → LiftState V
  put_flag f v s =
      let rf = s.regfile in
      let rf' = record rf {
        flags = λ g. if facet_eq f g then value (stored v) else rf.flags g;
        dirty_regs = set_bit rf.dirty_regs (flag_position f) true;
      } in
      record s { regfile = rf' }

  pub set_flag-eq :
      (f : Facet) (v : V) (s : LiftState V)
      → b.ty v ≡ int 1
      → flags_has f ≡ true
      → set_flag b f v s ≡ some (tt, put_flag f v s)
  unfolding set_flag put_flag Access.set_reg fits_facet facet_eq facet_type type_eq access_reg_facet
      register_set_bit_idx write_slot
  set_flag-eq Facet.zf v s h _ = ground arith
  set_flag-eq Facet.sf v s h _ = ground arith
  set_flag-eq Facet.pf v s h _ = ground arith
  set_flag-eq Facet.cf v s h _ = ground arith
  set_flag-eq Facet.of v s h _ = ground arith
  set_flag-eq Facet.af v s h _ = ground arith
  set_flag-eq Facet.df v s h _ = ground arith
  set_flag-eq f v s h no_flag = cc

module _ {V : Type 0} (b : Builder V) (m : Meaning b) where
  abbrev num_of : Deferred V → Option ℕ
  num_of (value v) = some (m.den v)
  num_of empty = none
  num_of generator = none

  -- The number of a flag, where its value is known.
  abbrev pub flag_num : LiftState V → Facet → Option ℕ
  flag_num s f = num_of (s.regfile.flags f)

  stored_den : (v : V) → m.den (stored b v) ≡ m.den v
  stored_den v = elim (Bool-cases (b.is_phi v)) [
    | inl e ↦ rw e (m.ssa_copy_den v)
    | inr e ↦ rw e refl
  ]

  num_of-if :
      (c : Bool) (v : V) (d : Deferred V)
      → num_of (if c then value (stored b v) else d) ≡ (if c then some (m.den v) else num_of d)
  num_of-if true v d = ap some (stored_den v)
  num_of-if false v d = refl

  pub flag_num-put_flag :
      (f g : Facet) (v : V) (s : LiftState V)
      → flag_num (put_flag b f v s) g ≡ (if facet_eq f g then some (m.den v) else flag_num s g)
  unfolding put_flag
  flag_num-put_flag f g v s = num_of-if (facet_eq f g) v (s.regfile.flags g)

-- What setting a flag leaves alone: all but the flags and the dirty registers.
pub record SameRegs {V : Type 0} (s t : LiftState V) : Type 0 where
  pub same_gp : t.regfile.regs_gp ≡ s.regfile.regs_gp
  pub same_sse : t.regfile.regs_sse ≡ s.regfile.regs_sse
  pub same_ip : t.regfile.reg_ip ≡ s.regfile.reg_ip
  pub same_effects : t.effects ≡ s.effects

pub SameRegs-refl : {V : Type 0} (s : LiftState V) → SameRegs s s
SameRegs-refl s = record { same_gp = refl; same_sse = refl; same_ip = refl; same_effects = refl }

pub SameRegs-put_flag :
    {V : Type 0} (b : Builder V) (f : Facet) (v : V) (s t : LiftState V)
    → SameRegs s t
    → SameRegs s (put_flag b f v t)
unfolding put_flag
SameRegs-put_flag b f v s t h = record {
  same_gp = h.same_gp;
  same_sse = h.same_sse;
  same_ip = h.same_ip;
  same_effects = h.same_effects;
}
