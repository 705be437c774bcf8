-- ===== src/Lifter/Sse/Lanes.antt =====
-- Elements of the vectors that the handlers of src/lifter-sse.cc build.
use rellume.Prelude.{
  ℕ, ◌%◌, ◌^◌, ◌<◌, ◌≡◌, ◌==◌, bit, if◌then◌else◌, Bool, true, false, refl, ap, ◌∙◌,
}
use rellume.Ir.{Builder, IrType, int, vector, BinaryOp, Predicate}
use rellume.Ir.Meaning.{Meaning, holds}
use rellume.Ir.Meaning.Vector.{VectorMeaning}

pub if_bit {ℓ} :
    {A : Type ℓ} (c : Bool) (x y : A) → (if bit c == 1 then x else y) ≡ (if c then x else y)
if_bit true x y = refl
if_bit false x y = refl

module _ {V : Type 0} (b : Builder V) (m : Meaning b) (vm : VectorMeaning b m) where
  open b use {ty, bin, icmp, select, integer_value}
  open vm use {lane}

  -- A choice for each element by a comparison.
  pub choice_lane :
      (p : Predicate) (x y u v : V) (w n i : ℕ)
      → ty x ≡ vector (int w) n
      → ty y ≡ vector (int w) n
      → ty v ≡ ty u
      → i < n
      → lane (select (icmp p x y) u v) i
        ≡ (if holds p w (lane x i) (lane y i) then lane u i else lane v i)
  choice_lane p x y u v w n i tx ty_y e lt =
      vm.select_lane (icmp p x y) u v n i (vm.icmp_vector p x y w n tx) e lt
      ∙ ap (λ (k : ℕ). if k == 1 then lane u i else lane v i) (vm.icmp_lane p x y w n i tx ty_y lt)
      ∙ if_bit (holds p w (lane x i) (lane y i)) (lane u i) (lane v i)

  -- The vector of a constant.
  pub constant_lane :
      (x : V) (k w n i : ℕ)
      → ty x ≡ vector (int w) n
      → i < n
      → lane (integer_value (ty x) k) i ≡ k % 2 ^ w
  constant_lane x k w n i t lt =
      ap (λ (s : IrType). lane (integer_value s k) i) t ∙ vm.integer_value_lane w n k i lt

  pub bin-vector : (o : BinaryOp) (x y : V) (t : IrType) → ty x ≡ t → ty (bin o x y) ≡ t
  bin-vector o x y t e = m.bin_ty o x y ∙ e
