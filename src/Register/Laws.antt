-- ===== src/Register/Laws.antt =====
-- The numbering of RegisterSetBitIdx in src/regfile.cc.
use rellume.Prelude.{
  ℕ, ◌+◌, ◌-◌, ◌<◌, ◌≤◌, ◌≡◌, ◌==◌, ltb, if◌then◌else◌, refl, Option, some, arith, sym, ap, ◌∙◌,
  some_inj, get_elem?, [], ◌∷◌,
}
use rellume.Facet.{Facet}
use rellume.Register.{
  X86Reg, RegKind, flag_bit, bit_of_kind, register_set_bit_idx, gp_reg, vec_reg, ip_reg, eflags_reg,
}

abbrev limit : RegKind → ℕ
limit RegKind.gp = 16
limit RegKind.vec = 16
limit k = 1

-- The registers that a register file has: 16 of each numbered kind.
abbrev pub InRange : X86Reg → Type 0
InRange r = r.index < limit r.kind

abbrev reg_of_bit : ℕ → X86Reg
reg_of_bit n =
    if ltb n 16
    then gp_reg n
    else if n == 16
    then ip_reg
    else if ltb n 24
    then eflags_reg
    else vec_reg (n - 24)

abbrev flag_of_bit : ℕ → Option Facet
flag_of_bit n =
    get_elem? (Facet.of ∷ Facet.sf ∷ Facet.zf ∷ Facet.af ∷ Facet.pf ∷ Facet.cf ∷ Facet.df ∷ [])
      (n - 17)

flag_found : (f : Facet) (n : ℕ) → flag_bit f ≡ some n → flag_of_bit n ≡ some f
flag_found Facet.of n e = rw (sym (some_inj e)) refl
flag_found Facet.sf n e = rw (sym (some_inj e)) refl
flag_found Facet.zf n e = rw (sym (some_inj e)) refl
flag_found Facet.af n e = rw (sym (some_inj e)) refl
flag_found Facet.pf n e = rw (sym (some_inj e)) refl
flag_found Facet.cf n e = rw (sym (some_inj e)) refl
flag_found Facet.df n e = rw (sym (some_inj e)) refl
flag_found f n e = cc

flag_range : (f : Facet) (n : ℕ) → flag_bit f ≡ some n → 17 ≤ n × n < 24
flag_range Facet.of n e = rw (sym (some_inj e)) (ground arith)
flag_range Facet.sf n e = rw (sym (some_inj e)) (ground arith)
flag_range Facet.zf n e = rw (sym (some_inj e)) (ground arith)
flag_range Facet.af n e = rw (sym (some_inj e)) (ground arith)
flag_range Facet.pf n e = rw (sym (some_inj e)) (ground arith)
flag_range Facet.cf n e = rw (sym (some_inj e)) (ground arith)
flag_range Facet.df n e = rw (sym (some_inj e)) (ground arith)
flag_range f n e = cc

pub zero_of_lt : {n : ℕ} → n < 1 → 0 ≡ n
zero_of_lt h = omega arith

reg_of_bit-flag : (n : ℕ) → 17 ≤ n → n < 24 → reg_of_bit n ≡ eflags_reg
reg_of_bit-flag n l r = ground arith

reg_of_bit-vec : (n : ℕ) → reg_of_bit (24 + n) ≡ vec_reg n
reg_of_bit-vec n = let back : 24 + n - 24 ≡ n = omega arith in rw back (ground arith)

named :
    (k : RegKind) (idx : ℕ) (f : Facet) (n : ℕ)
    → idx < limit k
    → bit_of_kind k idx f ≡ some n
    → n < 40 × reg_of_bit n ≡ record { kind = k; index = idx }
named RegKind.invalid idx f n h e = cc
named RegKind.gp idx f n h e = rw (sym (some_inj e)) (ground arith)
named RegKind.ip idx f n h e =
    rw (sym (some_inj e))
      (omega arith, ap (λ (n : ℕ). record { kind = RegKind.ip; index = n }) (zero_of_lt h))
named RegKind.eflags idx f n h e =
    let (l, r) = flag_range f n e in
    (
      omega arith,
      reg_of_bit-flag n l r
          ∙ ap (λ (n : ℕ). record { kind = RegKind.eflags; index = n }) (zero_of_lt h),
    )
named RegKind.vec idx f n h e = rw (sym (some_inj e)) (omega arith, reg_of_bit-vec idx)

-- RegisterSetBitIdx stays below 40, the size that a register set needs, and the bit determines the
-- register: two registers of a register file that have the same bit, under any facets, are the
-- same register.
pub register_set_bit_idx-determines :
    (r s : X86Reg) (f g : Facet) (n : ℕ)
    → InRange r
    → InRange s
    → register_set_bit_idx r f ≡ some n
    → register_set_bit_idx s g ≡ some n
    → n < 40 × r ≡ s
unfolding register_set_bit_idx
register_set_bit_idx-determines r s f g n h k e d =
    let (l, p) = named r.kind r.index f n h e in
    let (_, q) = named s.kind s.index g n k d in (l, sym p ∙ q)

-- The flags have bits of their own in a register set: two facets of the flags register that have
-- the same bit are the same facet.
pub register_set_bit_idx-flag_inj :
    (f g : Facet) (n : ℕ)
    → register_set_bit_idx eflags_reg f ≡ some n
    → register_set_bit_idx eflags_reg g ≡ some n
    → f ≡ g
unfolding register_set_bit_idx
register_set_bit_idx-flag_inj f g n e d = some_inj (sym (flag_found f n e) ∙ flag_found g n d)
