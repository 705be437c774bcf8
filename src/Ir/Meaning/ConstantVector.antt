-- ===== src/Ir/Meaning/ConstantVector.antt =====
-- The builder of constants, and the laws of the operations on vectors.
use native.Mathlib.Nat.{mod-eq_of_lt, div-le_self}
use rellume.Prelude.{
  ℕ, ◌+◌, ◌-◌, ◌*◌, ◌/◌, ◌%◌, ◌^◌, ◌≤◌, ◌<◌, ◌≡◌, ◌==◌, ltb, bit, if◌then◌else◌, Bool, true, false,
  List, [], ◌∷◌, some, some_inj, zero, suc, refl, ap, ◌∙◌, arith, get_elem?, get_or, length,
}
use rellume.Ir.{IrType, int, vector}
use rellume.Ir.Meaning.{holds, negative}
use rellume.Ir.Meaning.Vector.{VectorMeaning, sign_extend, shift_signed}
use rellume.Ir.Meaning.Constant.{
  Constant, constants, constants-Meaning, element, number, width, element-lt, element-mod, at_width,
  at_width_fits, same_type, bit_mod, pow_pos, zero-mod, lt-of_le, lt-of_lt, pow_mono, picked,
  bit_type, element_of, count,
}

width-vector : (t : IrType) (w n : ℕ) → t ≡ vector (int w) n → width t ≡ w
width-vector t w n e = ap width e

lane-lt : (x : Constant) (w n i : ℕ) → x.type_of ≡ vector (int w) n → element x i < 2 ^ w
lane-lt x w n i t = element-lt x i w (width-vector x.type_of w n t)

either-lt : (c : Bool) {a b p : ℕ} → a < p → b < p → (if c then a else b) < p
either-lt true h k = h
either-lt false h k = k

shift_signed-lt : (w m k : ℕ) → m < 2 ^ w → shift_signed w m k < 2 ^ w
shift_signed-lt w m k h =
    either-lt (negative w m) (omega (arith, pow_pos w)) (lt-of_le (div-le_self m (2 ^ k)) h)

sign_extend-lt : (w v m : ℕ) → m < 2 ^ w → w ≤ v → sign_extend w v m < 2 ^ v
sign_extend-lt w v m h le =
    either-lt (negative w m) (omega (arith, pow_mono w v le, pow_pos w))
      (lt-of_lt h (pow_mono w v le))

get_or-some : (l : List ℕ) (i k : ℕ) → get_elem? l i ≡ some k → get_or l i 0 ≡ k
get_or-some [] i k e = cc
get_or-some (x ∷ l) zero k e = some_inj e
get_or-some (x ∷ l) (suc i) k e = get_or-some l i k e

-- A choice between elements of two values of a width.
choose :
    (d : Bool) (x y : Constant) (i j v : ℕ)
    → width x.type_of ≡ v
    → width y.type_of ≡ v
    → (if d then element x i else element y j) % 2 ^ v ≡ (if d then element x i else element y j)
choose true x y i j v e f = mod-eq_of_lt (element-lt x i v e)
choose false x y i j v e f = mod-eq_of_lt (element-lt y j v f)

abbrev shuffled_number : Constant → Constant → ℕ → ℕ → ℕ
shuffled_number x y n j = if ltb j n then element x j else element y (j - n)

pub constants-VectorMeaning : VectorMeaning constants constants-Meaning
unfolding constants-Meaning
constants-VectorMeaning = record {
  lane = element;
  lane_lt = λ x w n i t h. lane-lt x w n i t;
  null_lane = λ w n i h. zero-mod (2 ^ w) (pow_pos w);
  add_lane =
      λ x y w n i t u h. at_width w (λ k. element x i + element y i) (width-vector x.type_of w n t);
  sub_lane = λ x y w n i t u h.
      at_width w (λ k. element x i + 2 ^ k - element y i) (width-vector x.type_of w n t);
  mul_lane =
      λ x y w n i t u h. at_width w (λ k. element x i * element y i) (width-vector x.type_of w n t);
  shl_lane = λ x y w n i t u h l.
      at_width w (λ k. element x i * 2 ^ element y i) (width-vector x.type_of w n t);
  lshr_lane = λ x y w n i t u h l.
      at_width_fits w (λ k. element x i / 2 ^ element y i) (width-vector x.type_of w n t)
        (lt-of_le (div-le_self (element x i) (2 ^ element y i)) (lane-lt x w n i t));
  ashr_lane = λ x y w n i t u h l.
      at_width_fits w (λ k. shift_signed k (element x i) (element y i))
        (width-vector x.type_of w n t)
        (shift_signed-lt w (element x i) (element y i) (lane-lt x w n i t));
  trunc_lane = λ x w v n i t l h. refl;
  zext_lane = λ x w v n i t l h. mod-eq_of_lt (lt-of_lt (lane-lt x w n i t) (pow_mono w v l));
  sext_lane = λ x w v n i t l h.
      ap (λ (k : ℕ). sign_extend k v (element x i) % 2 ^ v) (width-vector x.type_of w n t)
      ∙ mod-eq_of_lt (sign_extend-lt w v (element x i) (lane-lt x w n i t) l);
  icmp_vector = λ p x y w n t. ap bit_type t;
  icmp_lane = λ p x y w n i t u h.
      bit_mod (bit_type x.type_of) _ (ap (λ (s : IrType). width (bit_type s)) t)
      ∙ ap (λ (k : ℕ). bit (holds p k (element x i) (element y i))) (width-vector x.type_of w n t);
  select_lane = λ c x y n i t e h.
      ap
        (λ (s : IrType).
          (if element c (picked s i) == 1 then element x i else element y i)
          % 2 ^ width (if number c == 1 then x.type_of else y.type_of))
        t
      ∙ ap (λ (s : IrType). (if element c i == 1 then element x i else element y i) % 2 ^ width s)
          (same_type (number c == 1) x.type_of y.type_of e)
      ∙ choose (element c i == 1) x y i i (width x.type_of) refl (ap width e);
  select_whole = λ c x y i t e.
      ap
        (λ (s : IrType).
          (if element c (picked s i) == 1 then element x i else element y i)
          % 2 ^ width (if number c == 1 then x.type_of else y.type_of))
        t
      ∙ ap (λ (s : IrType). (if number c == 1 then element x i else element y i) % 2 ^ width s)
          (same_type (number c == 1) x.type_of y.type_of e)
      ∙ choose (number c == 1) x y i i (width x.type_of) refl (ap width e);
  splat_ty = λ n x w t. ap (λ (s : IrType). vector s n) t;
  splat_lane = λ n x w i t h. element-mod x 0;
  integer_value_ty = λ t k. refl;
  integer_value_lane = λ w n k i h. refl;
  shuffle_ty = λ x y mask t n e. ap (λ (s : IrType). vector (element_of s) (length mask)) e;
  shuffle_lane = λ x y mask t n i k e u g h.
      ap (λ (j : ℕ). shuffled_number x y (count x.type_of) j % 2 ^ width (element_of x.type_of))
        (get_or-some mask i k g)
      ∙ ap (λ (s : IrType). shuffled_number x y (count s) k % 2 ^ width (element_of s)) e
      ∙ choose (ltb k n) x y k (k - n) (width t) (ap width e) (ap width u);
}
