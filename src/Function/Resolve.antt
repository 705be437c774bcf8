-- ===== src/Function/Resolve.antt =====
-- Function::ResolveAddr of src/function.cc, and the addresses that LifterBase::SetIP of src/lifter.cc
-- writes.
use rellume.Prelude.{
  ℕ, ◌+◌, ◌-◌, ◌%◌, ◌^◌, ◌<◌, ◌≡◌, Bool, true, false, some, refl, ap, arith, Bool-cases, inl, inr,
}
use rellume.Facet.{Facet}
use rellume.Register.{ip_reg, register_set_bit_idx}
use rellume.Instr.{u64}
use rellume.Ir.{Builder, int, BinaryOp, facet_type, type_eq}
use rellume.RegFile.{RegFile, value, set_bit, access_reg_facet, write_slot, read_slot}
use rellume.RegFile.Access.{
  get_reg as rf_get_reg, set_reg as rf_set_reg, get_reg_facet, fits_facet, clear_others, force,
}
use rellume.Lifter.Monad.{LiftState, Config, set_ip, set_reg, store_reg}
use rellume.Function.{
  ArchBasicBlock, FunctionState, FunctionConfig, find, address_constant, resolve_addr,
}

module _ {V : Type 0} (b : Builder V) (same : V → V → Bool) (fcfg : FunctionConfig) where
  open b use {ty, bin, const_int, as_add, as_const, is_phi}

  -- What is asked of LLVM: a comparison of pointers is reflexive, a constant of 64 bits has its
  -- number, a sum of constants is folded, and a sum with another value can be taken apart.
  pub record Folds (base : V) (entry : ℕ) : Type 0 where
    pub same_refl : same base base ≡ true
    pub constant : (n : ℕ) → as_const (const_int 64 n) ≡ some (n % 2 ^ 64)
    pub apart :
        fcfg.position_independent_code ≡ true
        → (n : ℕ) → as_add (bin BinaryOp.add base (const_int 64 n)) ≡ some (base, const_int 64 n)
    pub folded :
        fcfg.position_independent_code ≡ false
        → (n : ℕ)
        → as_const (bin BinaryOp.add base (const_int 64 n)) ≡ some ((entry + n % 2 ^ 64) % 2 ^ 64)
    pub sum_ty : (n : ℕ) → ty (bin BinaryOp.add base (const_int 64 n)) ≡ int 64
    pub sum_phi : (n : ℕ) → is_phi (bin BinaryOp.add base (const_int 64 n)) ≡ false

  abbrev rip_value : Config V → ℕ → V
  rip_value cfg addr =
      bin BinaryOp.add cfg.entry_ip_value (const_int 64 (u64 (addr + 2 ^ 64 - cfg.entry_ip)))

  constant_lem :
      (cfg : Config V) (fn : FunctionState V) (addr : ℕ)
      → fn.entry_ip ≡ cfg.entry_ip
      → fn.entry_ip_value ≡ cfg.entry_ip_value
      → Folds cfg.entry_ip_value cfg.entry_ip
      → cfg.entry_ip < 2 ^ 64
      → addr < 2 ^ 64
      → address_constant b same fcfg fn (rip_value cfg addr) ≡ some addr
  unfolding address_constant
  constant_lem cfg fn addr e f l h k = elim (Bool-cases fcfg.position_independent_code) [
    | inl p ↦
        rw
          (
            p,
            l.apart p (u64 (addr + 2 ^ 64 - cfg.entry_ip)),
            f,
            l.same_refl,
            l.constant (u64 (addr + 2 ^ 64 - cfg.entry_ip)),
          )
          (ap some (omega (arith, e, h, k)))
    | inr p ↦
        rw (p, l.folded p (u64 (addr + 2 ^ 64 - cfg.entry_ip))) (ap some (omega (arith, h, k)))
  ]

  abbrev ip_written : V → RegFile V → RegFile V
  ip_written v rf = record rf { reg_ip = value v; dirty_regs = set_bit rf.dirty_regs 16 true }

  written_lem :
      (v : V) (rf : RegFile V)
      → ty v ≡ int 64
      → is_phi v ≡ false
      → rf_set_reg b ip_reg Facet.i64 v true rf ≡ some (ip_written v rf)
  unfolding rf_set_reg fits_facet facet_type type_eq access_reg_facet write_slot
      register_set_bit_idx clear_others
  written_lem v rf t p = rw (t, p, rf_set_reg, fits_facet) refl

  store_lem :
      (v : V) (s : LiftState V) (rf : RegFile V)
      → rf_set_reg b ip_reg Facet.i64 v true s.regfile ≡ some rf
      → set_reg b ip_reg Facet.i64 v s ≡ some (tt, record s { regfile = rf })
  unfolding set_reg store_reg
  store_lem v s rf e = rw (e, set_reg, store_reg) refl

  -- What SetIP leaves in the register file.
  set_ip_lem :
      (cfg : Config V) (addr : ℕ) (s : LiftState V)
      → Folds cfg.entry_ip_value cfg.entry_ip
      → (s' : LiftState V) × (set_ip b cfg addr false s ≡ some (tt, s'))
        × (rf_get_reg b ip_reg Facet.i64 s'.regfile ≡ some (rip_value cfg addr, s'.regfile))
  unfolding set_ip rf_get_reg get_reg_facet access_reg_facet read_slot force
  set_ip_lem cfg addr s l =
      let off = u64 (addr + 2 ^ 64 - cfg.entry_ip) in
      (
        record s { regfile = ip_written (rip_value cfg addr) s.regfile },
        store_lem (rip_value cfg addr) s _
            (written_lem (rip_value cfg addr) s.regfile (l.sum_ty off) (l.sum_phi off)),
        refl,
      )

  -- For a builder that folds sums of constants and shows the parts of other sums: the address that
  -- SetIP writes, without hiding it, is read back from the register file, and ResolveAddr finds for
  -- it the block that the map has for that address, both under position-independent code, where the
  -- address is the entry plus a wrapping offset, and otherwise, where it is a constant.
  pub resolve_addr-set_ip :
      (cfg : Config V) (fn : FunctionState V) (addr : ℕ) (s : LiftState V) (ab : ArchBasicBlock)
      → fn.entry_ip ≡ cfg.entry_ip
      → fn.entry_ip_value ≡ cfg.entry_ip_value
      → Folds cfg.entry_ip_value cfg.entry_ip
      → cfg.entry_ip < 2 ^ 64
      → addr < 2 ^ 64
      → find addr fn.block_map ≡ some ab
      → (s' : LiftState V) × (v : V) × (set_ip b cfg addr false s ≡ some (tt, s'))
        × (rf_get_reg b ip_reg Facet.i64 s'.regfile ≡ some (v, s'.regfile))
        × (resolve_addr b same fcfg fn v ≡ ab)
  unfolding resolve_addr
  resolve_addr-set_ip cfg fn addr s ab e f l h k found =
      let (s', set, got) = set_ip_lem cfg addr s l in
      (
        s',
        rip_value cfg addr,
        set,
        got,
        rw (constant_lem cfg fn addr e f l h k, found, resolve_addr) refl,
      )
