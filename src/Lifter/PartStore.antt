-- ===== src/Lifter/PartStore.antt =====
-- src/lifter-operand.cc: what OpStoreGp to a part of a register does to the register file.
use rellume.Prelude.{
  ℕ, ◌+◌, ◌≡◌, ◌==◌, true, false, some, refl, ◌∙◌, arith, ==_refl, Bool-cases, inl, inr,
}
use rellume.Facet.{Facet, facet_eq}
use rellume.Register.{gp_reg, register_set_bit_idx}
use rellume.Ir.{Builder, int, BinaryOp, CastOp, facet_type, type_eq}
use rellume.Ir.Meaning.{Meaning}
use rellume.RegFile.{
  RegFile, value, set_bit, clear_gp, gp_slot, gp_has, write_slot, read_slot, access_reg_facet,
}
use rellume.RegFile.Access.{
  get_reg as rf_get_reg, set_reg as rf_set_reg, get_reg_facet, force, fits_facet, clear_others,
}
use rellume.Lifter.FlagState.{stored}
use rellume.Lifter.Monad.{
  LiftState, Config, get_reg, set_reg, set_reg_facet, store_reg, ◌>>=◌, ◌>>◌,
}
use rellume.Lifter.Operand.{store_gp_facet, merge}
use rellume.Lifter.PartValue.{
  IsPart, low_byte, high_byte, low_word, replace_part, widen_ty, whole, whole_den,
}

-- The facets below 64 bits; a store to the low half clears the other half.
data IsBelow : Facet → Type 0 where
  part : {f : Facet} {w : ℕ} → IsPart f w → IsBelow f
  low_half : IsBelow Facet.i32

module _ {V : Type 0} (b : Builder V) (cfg : Config V) (m : Meaning b) where
  open b use {ty, const_int, bin, cast}

  store_lem :
      (n : ℕ) {f : Facet} {w : ℕ}
      → IsPart f w
      → (v old : V) (s s1 : LiftState V) → ty v ≡ int w
      → get_reg b (gp_reg n) Facet.i64 s ≡ some (old, s1)
      → store_gp_facet b cfg (gp_reg n) f v s
        ≡ (do
          set_reg b (gp_reg n) Facet.i64 (whole b cfg m f old v)
          set_reg_facet b (gp_reg n) f v)
            s1
  unfolding store_gp_facet merge facet_type type_eq facet_eq
  store_lem n low_byte v old s s1 t got = rw (t, store_gp_facet, t, ◌>>=◌, merge, got) refl
  store_lem n high_byte v old s s1 t got = rw (t, store_gp_facet, t, ◌>>=◌, merge, got) refl
  store_lem n low_word v old s s1 t got = rw (t, store_gp_facet, t, ◌>>=◌, merge, got) refl

  -- The register file with a new value of a facet.
  abbrev after : ℕ → Facet → V → RegFile V → RegFile V
  after n f v rf =
      let rf' = write_slot rf (gp_slot n f) (value (stored b v)) in
      record rf' { dirty_regs = set_bit rf'.dirty_regs (0 + n) true }

  set_whole_lem :
      (n : ℕ) (x : V) (s : LiftState V)
      → ty x ≡ int 64
      → set_reg b (gp_reg n) Facet.i64 x s
        ≡ some (tt, record s { regfile = after n Facet.i64 x (clear_gp s.regfile n) })
  unfolding set_reg store_reg rf_set_reg fits_facet facet_type type_eq access_reg_facet
      register_set_bit_idx clear_others facet_eq gp_has
  set_whole_lem n x s t = rw (set_reg, store_reg, rf_set_reg, fits_facet, t) refl

  set_part_lem :
      (n : ℕ) {f : Facet} {w : ℕ}
      → IsPart f w
      → (v : V) (s : LiftState V) → ty v ≡ int w
      → set_reg_facet b (gp_reg n) f v s ≡ some (tt, record s { regfile = after n f v s.regfile })
  unfolding set_reg_facet store_reg rf_set_reg fits_facet facet_type type_eq access_reg_facet
      register_set_bit_idx clear_others facet_eq gp_has
  set_part_lem n low_byte v s t = rw (set_reg_facet, store_reg, rf_set_reg, fits_facet, t) refl
  set_part_lem n high_byte v s t = rw (set_reg_facet, store_reg, rf_set_reg, fits_facet, t) refl
  set_part_lem n low_word v s t = rw (set_reg_facet, store_reg, rf_set_reg, fits_facet, t) refl

  abbrev both : ℕ → Facet → V → V → LiftState V → LiftState V
  both n f x v s = record s { regfile = after n f v (after n Facet.i64 x (clear_gp s.regfile n)) }

  lookup_lem :
      (n : ℕ) (x : V) (s : LiftState V)
      → s.regfile.regs_gp n Facet.i64 ≡ value x
      → get_reg b (gp_reg n) Facet.i64 s ≡ some (x, s)
  unfolding get_reg rf_get_reg get_reg_facet access_reg_facet read_slot force gp_has
  lookup_lem n x s e = rw (get_reg, rf_get_reg, get_reg_facet, e) refl

  slot_lem :
      (n : ℕ) {f : Facet}
      → IsBelow f
      → (x v : V) (s : LiftState V)
      → (both n f x v s).regfile.regs_gp n Facet.i64 ≡ value (stored b x)
  unfolding write_slot facet_eq
  slot_lem n (part low_byte) x v s = rw (==_refl n) refl
  slot_lem n (part high_byte) x v s = rw (==_refl n) refl
  slot_lem n (part low_word) x v s = rw (==_refl n) refl
  slot_lem n low_half x v s = rw (==_refl n) refl

  stored_den : (x : V) → m.den (stored b x) ≡ m.den x
  stored_den x = elim (Bool-cases (b.is_phi x)) [
    | inl e ↦ rw e (m.ssa_copy_den x)
    | inr e ↦ rw e refl
  ]

  -- What a store to a part does to the state of the lifter.
  store_state_lem :
      (n : ℕ) {f : Facet} {w : ℕ}
      → IsPart f w
      → (v old : V) (s s1 : LiftState V) → ty v ≡ int w
      → get_reg b (gp_reg n) Facet.i64 s ≡ some (old, s1)
      → store_gp_facet b cfg (gp_reg n) f v s ≡ some (tt, both n f (whole b cfg m f old v) v s1)
  store_state_lem n {f} p v old s s1 t got =
      let whole_ty : ty (whole b cfg m f old v) ≡ int 64 =
        m.bin_ty BinaryOp.or _ _ ∙ widen_ty b cfg m p v in
      store_lem n p v old s s1 t got
      ∙ rw (set_whole_lem n (whole b cfg m f old v) s1 whole_ty, ◌>>=◌) (set_part_lem n p v _ t)

  -- For a builder that obeys the laws of LLVM's integers: OpStoreGp of a value to the low byte, the
  -- second byte or the low word of a general-purpose register, whose 64-bit value can be read,
  -- succeeds. The 64-bit value that is read after it is the old one with that part replaced by the
  -- stored number, and with all other bits kept.
  pub store_gp_facet-replace_part :
      (n : ℕ) {f : Facet} {w : ℕ}
      → IsPart f w
      → (v old : V) (s s1 : LiftState V) → ty v ≡ int w
      → ty old ≡ int 64
      → get_reg b (gp_reg n) Facet.i64 s ≡ some (old, s1)
      → (s' : LiftState V) × (x : V) × (store_gp_facet b cfg (gp_reg n) f v s ≡ some (tt, s'))
        × (get_reg b (gp_reg n) Facet.i64 s' ≡ some (x, s'))
        × (m.den x ≡ replace_part f (m.den old) (m.den v))
  store_gp_facet-replace_part n {f} p v old s s1 t e got = (
    both n f (whole b cfg m f old v) v s1,
    stored b (whole b cfg m f old v),
    store_state_lem n p v old s s1 t got,
    lookup_lem n _ _ (slot_lem n (part p) (whole b cfg m f old v) v s1),
    stored_den (whole b cfg m f old v) ∙ whole_den b cfg m p old v t e,
  )

  set_low_half_lem :
      (n : ℕ) (v : V) (s : LiftState V)
      → ty v ≡ int 32
      → set_reg_facet b (gp_reg n) Facet.i32 v s
        ≡ some (tt, record s { regfile = after n Facet.i32 v s.regfile })
  unfolding set_reg_facet store_reg rf_set_reg fits_facet facet_type type_eq access_reg_facet
      register_set_bit_idx clear_others facet_eq gp_has
  set_low_half_lem n v s t = rw (set_reg_facet, store_reg, rf_set_reg, fits_facet, t) refl

  store_low_half_lem :
      (n : ℕ) (v : V) (s : LiftState V)
      → ty v ≡ int 32
      → store_gp_facet b cfg (gp_reg n) Facet.i32 v s
        ≡ (do
          set_reg b (gp_reg n) Facet.i64 (cast CastOp.zext v (int 64))
          set_reg_facet b (gp_reg n) Facet.i32 v)
            s
  unfolding store_gp_facet merge facet_type type_eq facet_eq
  store_low_half_lem n v s t = rw (t, store_gp_facet, t, ◌>>=◌, merge) refl

  -- For a builder that obeys the laws of LLVM's integers: OpStoreGp of a 32-bit value to a
  -- general-purpose register succeeds in every state, without a read of the register's old value,
  -- and the 64-bit value that is read after it is the stored number, with the upper half zero.
  pub store_gp_facet-zero_extend :
      (n : ℕ) (v : V) (s : LiftState V)
      → ty v ≡ int 32
      → (s' : LiftState V) × (x : V) × (store_gp_facet b cfg (gp_reg n) Facet.i32 v s
          ≡ some (tt, s'))
        × (get_reg b (gp_reg n) Facet.i64 s' ≡ some (x, s'))
        × (m.den x ≡ m.den v)
  store_gp_facet-zero_extend n v s t =
      let whole64 = cast CastOp.zext v (int 64) in
      (
        both n Facet.i32 whole64 v s,
        stored b whole64,
        store_low_half_lem n v s t
            ∙ rw (set_whole_lem n whole64 s (m.cast_ty CastOp.zext v (int 64)), ◌>>=◌)
                (set_low_half_lem n v _ t),
        lookup_lem n _ _ (slot_lem n low_half whole64 v s),
        stored_den whole64 ∙ m.zext_den v 32 64 t (omega arith),
      )

  slot_kept_lem :
      (n k : ℕ) (f g : Facet) (x v : V) (s : LiftState V)
      → (n == k) ≡ false
      → (both n f x v s).regfile.regs_gp k g ≡ s.regfile.regs_gp k g
  unfolding write_slot clear_gp facet_eq
  slot_kept_lem n k f g x v s e = rw (e, write_slot, clear_gp) refl

  -- For a builder that obeys the laws of LLVM's integers: OpStoreGp to the low byte, the second byte
  -- or the low word of a general-purpose register, whose 64-bit value can be read, succeeds, and
  -- after that read it changes no facet of another general-purpose register, no vector register, no
  -- flag and not the instruction pointer, and it emits no access of memory.
  pub store_gp_facet-keeps_others :
      (n k : ℕ) (g : Facet) {f : Facet} {w : ℕ}
      → IsPart f w
      → (v old : V) (s s1 : LiftState V) → ty v ≡ int w
      → get_reg b (gp_reg n) Facet.i64 s ≡ some (old, s1)
      → (n == k) ≡ false
      → (s' : LiftState V) × (store_gp_facet b cfg (gp_reg n) f v s ≡ some (tt, s'))
        × (s'.regfile.regs_gp k g ≡ s1.regfile.regs_gp k g)
        × (s'.regfile.regs_sse ≡ s1.regfile.regs_sse)
        × (s'.regfile.flags ≡ s1.regfile.flags)
        × (s'.regfile.reg_ip ≡ s1.regfile.reg_ip)
        × (s'.effects ≡ s1.effects)
  unfolding write_slot clear_gp
  store_gp_facet-keeps_others n k g {f} p v old s s1 t got e = (
    both n f (whole b cfg m f old v) v s1,
    store_state_lem n p v old s s1 t got,
    slot_kept_lem n k f g (whole b cfg m f old v) v s1 e,
    refl,
    refl,
    refl,
    refl,
  )
