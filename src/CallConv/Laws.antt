-- ===== src/CallConv/Laws.antt =====
-- The numberings of the host registers in src/callconv.cc, for the HHVM convention.
use rellume.Prelude.{
  ℕ, zero, suc, ◌≡◌, ◌==◌, ltb, if◌then◌else◌, true, false, refl, some, arith, sym, ap, ◌∙◌,
  some_inj, List, [], ◌∷◌, get_or, Bool-cases, inl, inr,
}
use rellume.Register.{X86Reg, RegKind, gp_reg, ip_reg}
use rellume.Register.Laws.{InRange, zero_of_lt}
use rellume.CallConv.{
  hhvm_is_host_reg, hhvm_arg_index, hhvm_ret_index, arg_indices, ret_indices, host_index,
  cpu_struct_param_idx,
}
use rellume.Lifter.Monad.{hhvm_conv}

-- The general purpose register of a position.
abbrev reg_at : ℕ → List ℕ → ℕ → X86Reg
reg_at own positions n = if n == own then ip_reg else gp_reg (get_or positions n 0)

abbrev arg_positions : List ℕ
arg_positions = 0 ∷ 0 ∷ 3 ∷ 4 ∷ 7 ∷ 6 ∷ 2 ∷ 1 ∷ 8 ∷ 9 ∷ 0 ∷ 10 ∷ 11 ∷ 5 ∷ []

abbrev ret_positions : List ℕ
ret_positions = 0 ∷ 3 ∷ 7 ∷ 6 ∷ 2 ∷ 1 ∷ 8 ∷ 9 ∷ 0 ∷ 10 ∷ 11 ∷ 5 ∷ 0 ∷ 4 ∷ []

-- A number of `indices` leads back to its register, is below 14 and not the free place.
abbrev Placed : List ℕ → ℕ → ℕ → X86Reg → Type 0
Placed positions free n r = ltb n 14 ≡ true × (n == free) ≡ false × reg_at 0 positions n ≡ r

abbrev GpPlaced : List ℕ → List ℕ → ℕ → Type 0
GpPlaced indices positions free =
    (idx : ℕ) → ltb idx 12 ≡ true → Placed positions free (get_or indices idx 0) (gp_reg idx)

arg_placed : GpPlaced arg_indices arg_positions 1
arg_placed zero h = (refl, refl, refl)
arg_placed (suc zero) h = (refl, refl, refl)
arg_placed (suc (suc zero)) h = (refl, refl, refl)
arg_placed (suc (suc (suc zero))) h = (refl, refl, refl)
arg_placed (suc (suc (suc (suc zero)))) h = (refl, refl, refl)
arg_placed (suc (suc (suc (suc (suc zero))))) h = (refl, refl, refl)
arg_placed (suc (suc (suc (suc (suc (suc zero)))))) h = (refl, refl, refl)
arg_placed (suc (suc (suc (suc (suc (suc (suc zero))))))) h = (refl, refl, refl)
arg_placed (suc (suc (suc (suc (suc (suc (suc (suc zero)))))))) h = (refl, refl, refl)
arg_placed (suc (suc (suc (suc (suc (suc (suc (suc (suc zero))))))))) h = (refl, refl, refl)
arg_placed (suc (suc (suc (suc (suc (suc (suc (suc (suc (suc zero)))))))))) h = (refl, refl, refl)
arg_placed (suc (suc (suc (suc (suc (suc (suc (suc (suc (suc (suc zero))))))))))) h =
    (refl, refl, refl)
arg_placed (suc (suc (suc (suc (suc (suc (suc (suc (suc (suc (suc (suc idx)))))))))))) h =
    ground arith

ret_placed : GpPlaced ret_indices ret_positions 12
ret_placed zero h = (refl, refl, refl)
ret_placed (suc zero) h = (refl, refl, refl)
ret_placed (suc (suc zero)) h = (refl, refl, refl)
ret_placed (suc (suc (suc zero))) h = (refl, refl, refl)
ret_placed (suc (suc (suc (suc zero)))) h = (refl, refl, refl)
ret_placed (suc (suc (suc (suc (suc zero))))) h = (refl, refl, refl)
ret_placed (suc (suc (suc (suc (suc (suc zero)))))) h = (refl, refl, refl)
ret_placed (suc (suc (suc (suc (suc (suc (suc zero))))))) h = (refl, refl, refl)
ret_placed (suc (suc (suc (suc (suc (suc (suc (suc zero)))))))) h = (refl, refl, refl)
ret_placed (suc (suc (suc (suc (suc (suc (suc (suc (suc zero))))))))) h = (refl, refl, refl)
ret_placed (suc (suc (suc (suc (suc (suc (suc (suc (suc (suc zero)))))))))) h = (refl, refl, refl)
ret_placed (suc (suc (suc (suc (suc (suc (suc (suc (suc (suc (suc zero))))))))))) h =
    (refl, refl, refl)
ret_placed (suc (suc (suc (suc (suc (suc (suc (suc (suc (suc (suc (suc idx)))))))))))) h =
    ground arith

gp_host_index :
    (indices : List ℕ) (idx n : ℕ)
    → host_index indices (gp_reg idx) ≡ some n
    → ltb idx 12 ≡ true × get_or indices idx 0 ≡ n
unfolding hhvm_is_host_reg
gp_host_index indices idx n e = elim (Bool-cases (ltb idx 12)) [
  | inl c ↦ (c, ground arith)
  | inr c ↦ ground arith
]

ip-Placed :
    (indices positions : List ℕ) (free n : ℕ)
    → (0 == free) ≡ false
    → host_index indices ip_reg ≡ some n
    → Placed positions free n ip_reg
unfolding hhvm_is_host_reg
ip-Placed indices positions free n z e = rw (sym (some_inj e)) (refl, z, refl)

-- A host register has a place of its own.
host_index-Placed :
    (indices positions : List ℕ) (free n : ℕ) (k : RegKind) (idx : ℕ)
    → GpPlaced indices positions free
    → (0 == free) ≡ false
    → InRange (record { kind = k; index = idx })
    → host_index indices (record { kind = k; index = idx }) ≡ some n
    → Placed positions free n (record { kind = k; index = idx })
unfolding hhvm_is_host_reg
host_index-Placed indices positions free n RegKind.gp idx h z i e =
    let (c, l) = gp_host_index indices idx n e in rw (sym l) (h idx c)
host_index-Placed indices positions free n RegKind.ip idx h z i e =
    let first : 0 ≡ idx = zero_of_lt i in
    rw (sym first) (
      ip-Placed indices positions free n z
        (ap (λ (j : ℕ). host_index indices (record { kind = RegKind.ip; index = j })) first ∙ e))
host_index-Placed indices positions free n k idx h z i e = cc

-- Under the HHVM convention, two registers of a register file that have the same parameter are the
-- same register, and the parameter is among the 14 and is not parameter 1, the CPU struct.
pub hhvm_arg_index-inj :
    (r s : X86Reg) (n : ℕ)
    → InRange r
    → InRange s
    → hhvm_arg_index r ≡ some n
    → hhvm_arg_index s ≡ some n
    → ltb n 14 ≡ true × (n == cpu_struct_param_idx hhvm_conv) ≡ false × r ≡ s
unfolding hhvm_arg_index cpu_struct_param_idx
hhvm_arg_index-inj r s n i j e d =
    let (l, f, p) =
      host_index-Placed arg_indices arg_positions 1 n r.kind r.index arg_placed refl i e in
    let (_, _, q) =
      host_index-Placed arg_indices arg_positions 1 n s.kind s.index arg_placed refl j d in
    (l, f, sym p ∙ q)

-- Under the HHVM convention, two registers of a register file that have the same field of the
-- result are the same register, and the field is among the 14 and is not field 12, which is left
-- undefined.
pub hhvm_ret_index-inj :
    (r s : X86Reg) (n : ℕ)
    → InRange r
    → InRange s
    → hhvm_ret_index r ≡ some n
    → hhvm_ret_index s ≡ some n
    → ltb n 14 ≡ true × (n == 12) ≡ false × r ≡ s
unfolding hhvm_ret_index
hhvm_ret_index-inj r s n i j e d =
    let (l, f, p) =
      host_index-Placed ret_indices ret_positions 12 n r.kind r.index ret_placed refl i e in
    let (_, _, q) =
      host_index-Placed ret_indices ret_positions 12 n s.kind s.index ret_placed refl j d in
    (l, f, sym p ∙ q)
