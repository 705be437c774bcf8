-- ===== src/Ir/Meaning/Constant.antt =====
-- A builder whose values are constants, which shows that the laws of `Meaning` can hold together.
use native.Mathlib.Nat.{mod-eq_of_lt, mod-lt, one-le-pow, pow-le-pow_right, div-le_self}
use rellume.Prelude.{
  ℕ, ◌+◌, ◌-◌, ◌*◌, ◌/◌, ◌%◌, ◌^◌, ◌≤◌, ◌<◌, ◌≡◌, ◌==◌, bit, if◌then◌else◌, Bool, true, false, List,
  [], ◌∷◌, bit_and, bit_or, bit_xor, zero, suc, Option, none, some, refl, sym, ap, ◌∙◌, arith, ltb,
  length, get_or,
}
use rellume.Prelude.Bits.{
  lt-two-pow, lt_lem, bit_and-IsDigitwise, bit_or-IsDigitwise, bit_xor-IsDigitwise,
}
use rellume.Ir.{Builder, IrType, int, float, vector, BinaryOp, CastOp, Intrinsic}
use rellume.Ir.Meaning.{Meaning, holds, ones, signed_add_overflows}
use rellume.Ir.Meaning.Vector.{sign_extend, shift_signed}

-- A value by its type and its elements; a scalar has the same number at every position.
pub record Constant : Type 0 where
  pub type_of : IrType
  pub elements : ℕ → ℕ

abbrev pub num : ℕ → ℕ → Constant
num w n = record { type_of = int w; elements = λ i. n }

abbrev wrap : IrType → ℕ → Constant
wrap t n = record { type_of = t; elements = λ i. n }

-- The bits of an element; a type without integers has elements of 64 bits.
abbrev pub width : IrType → ℕ
width (int w) = w
width (vector t n) = width t
width t = 64

abbrev pub element : Constant → ℕ → ℕ
element x i = x.elements i % 2 ^ width x.type_of

abbrev pub number : Constant → ℕ
number x = element x 0

abbrev compute : BinaryOp → ℕ → ℕ → ℕ → ℕ
compute BinaryOp.add w m n = m + n
compute BinaryOp.sub w m n = m + 2 ^ w - n
compute BinaryOp.mul w m n = m * n
compute BinaryOp.udiv w m n = m / n
compute BinaryOp.urem w m n = m % n
compute BinaryOp.shl w m n = m * 2 ^ n
compute BinaryOp.lshr w m n = m / 2 ^ n
compute BinaryOp.and w m n = bit_and m n
compute BinaryOp.or w m n = bit_or m n
compute BinaryOp.xor w m n = bit_xor m n
compute BinaryOp.ashr w m n = shift_signed w m n
compute o w m n = 0

abbrev call : Intrinsic → List Constant → Constant
call Intrinsic.ctpop (x ∷ []) = wrap x.type_of (ones (width x.type_of) (number x))
call Intrinsic.ssa_copy (x ∷ []) = x
call Intrinsic.sadd_with_overflow (x ∷ y ∷ []) =
    wrap float (bit (signed_add_overflows (width x.type_of) (number x) (number y)))
call i xs = wrap float 0

abbrev as_num : Constant → Option ℕ
as_num x = elim x.type_of [ int w ↦ some (number x) | _ ↦ none ]

abbrev computed : BinaryOp → Constant → Constant → ℕ → ℕ
computed o x y i = compute o (width x.type_of) (element x i) (element y i)

abbrev converted : CastOp → Constant → IrType → ℕ → ℕ
converted CastOp.sext x t i = sign_extend (width x.type_of) (width t) (element x i)
converted c x t i = element x i

abbrev pub bit_type : IrType → IrType
bit_type (vector t n) = vector (int 1) n
bit_type t = int 1

-- The element of a condition that decides on element `i`.
abbrev pub picked : IrType → ℕ → ℕ
picked (vector t n) i = i
picked t i = 0

abbrev pub element_of : IrType → IrType
element_of (vector t n) = t
element_of t = t

abbrev pub count : IrType → ℕ
count (vector t n) = n
count t = 1

abbrev shuffled : Constant → Constant → List ℕ → Constant
shuffled x y mask =
    let n = count x.type_of in
    record {
      type_of = vector (element_of x.type_of) (length mask);
      elements = λ i. let k = get_or mask i 0 in if ltb k n then element x k else element y (k - n);
    }

abbrev pub constants : Builder Constant
constants = record {
  ty = λ x. x.type_of;
  is_phi = λ x. false;
  as_add = λ x. none;
  as_const = as_num;
  as_select = λ x. none;
  is_constant = λ x. true;
  is_null = λ x. number x == 0;
  const_int = num;
  null = λ t. wrap t 0;
  undef = λ t. wrap t 0;
  bin = λ o x y. record { type_of = x.type_of; elements = computed o x y };
  create_not = λ x. wrap x.type_of (2 ^ width x.type_of - 1 - number x);
  create_neg = λ x. wrap x.type_of (2 ^ width x.type_of - number x);
  icmp = λ p x y. record {
    type_of = bit_type x.type_of;
    elements = λ i. bit (holds p (width x.type_of) (element x i) (element y i));
  };
  select = λ c x y. record {
    type_of = if number c == 1 then x.type_of else y.type_of;
    elements = λ i. if element c (picked c.type_of i) == 1 then element x i else element y i;
  };
  cast = λ c x t. record { type_of = t; elements = converted c x t };
  gep = λ x y. x;
  intrinsic = call;
  extract_value = λ x i. num 1 (x.elements i);
  extract_element = λ x i. wrap (element_of x.type_of) (x.elements i);
  insert_element = λ x y k. record {
    type_of = x.type_of;
    elements = λ i. if i == k then number y else x.elements i;
  };
  shuffle = shuffled;
  fcmp = λ p x y. wrap (bit_type x.type_of) 0;
  splat = λ n x. record { type_of = vector x.type_of n; elements = λ i. number x };
  integer_value = wrap;
  phi = λ k r f t. wrap t 0;
  loaded = λ k t x. wrap t k;
  called = λ k f. num 64 k;
  argument = λ k. num 64 k;
}

pub width-eq : (t : IrType) (w : ℕ) → t ≡ int w → width t ≡ w
width-eq t w e = ap width e

pub pow_pos : (w : ℕ) → 0 < 2 ^ w
pow_pos w = omega (arith, one-le-pow w 2)

-- An element of a value has the bits of the value's width.
pub element-lt : (x : Constant) (i w : ℕ) → width x.type_of ≡ w → element x i < 2 ^ w
element-lt x i w e = rw (sym e) (mod-lt (x.elements i) (pow_pos (width x.type_of)))

pub number-lt : (x : Constant) (w : ℕ) → x.type_of ≡ int w → number x < 2 ^ w
number-lt x w e = element-lt x 0 w (width-eq x.type_of w e)

pub element-mod : (x : Constant) (i : ℕ) → element x i % 2 ^ width x.type_of ≡ element x i
element-mod x i = mod-eq_of_lt (element-lt x i (width x.type_of) refl)

pub number-wrap : (t : IrType) (w n : ℕ) → t ≡ int w → number (wrap t n) ≡ n % 2 ^ w
number-wrap t w n e = ap (λ (k : ℕ). n % 2 ^ k) (width-eq t w e)

-- A result that fits the width is not changed.
pub wrap-fits : (t : IrType) (w n : ℕ) → t ≡ int w → n < 2 ^ w → number (wrap t n) ≡ n
wrap-fits t w n e h = number-wrap t w n e ∙ mod-eq_of_lt h

-- What a computation gives at an element, as a number of the known width.
pub at_width : (k : ℕ) (f : ℕ → ℕ) {v : ℕ} → v ≡ k → f v % 2 ^ v ≡ f k % 2 ^ k
at_width k f e = ap (λ (n : ℕ). f n % 2 ^ n) e

pub at_width_fits : (k : ℕ) (f : ℕ → ℕ) {v : ℕ} → v ≡ k → f k < 2 ^ k → f v % 2 ^ v ≡ f k
at_width_fits k f e h = at_width k f e ∙ mod-eq_of_lt h

ones-le : (k n : ℕ) → ones k n ≤ k
ones-le zero n = omega arith
ones-le (suc k) n = omega (arith, ones-le k (n / 2))

pub bit-lt : (c : Bool) → bit c < 2
bit-lt true = omega arith
bit-lt false = omega arith

pub zero-mod : (n : ℕ) → 0 < n → 0 % n ≡ 0
zero-mod n h = mod-eq_of_lt h

pub lt-of_le : {a b c : ℕ} → a ≤ b → b < c → a < c
lt-of_le h k = omega arith

pub lt-of_lt : {a b c : ℕ} → a < b → b ≤ c → a < c
lt-of_lt h k = omega arith

pub pow_mono : (w n : ℕ) → w ≤ n → 2 ^ w ≤ 2 ^ n
pow_mono w n h = pow-le-pow_right (omega arith) h

pub ones-lt : (w n : ℕ) → ones w n < 2 ^ w
ones-lt w n = omega (arith, ones-le w n, lt-two-pow w)

-- A choice between two values of a type.
pub select_at :
    (c : Bool) (x y : Constant) (i : ℕ)
    → (if c then element x i else element y i) % 2 ^ width (if c then x.type_of else y.type_of)
      ≡ (if c then element x i else element y i)
select_at true x y i = element-mod x i
select_at false x y i = element-mod y i

pub same_type : (c : Bool) (s t : IrType) → t ≡ s → (if c then s else t) ≡ s
same_type true s t e = refl
same_type false s t e = e

pub picked-zero : (t : IrType) → picked t 0 ≡ 0
picked-zero (vector t n) = refl
picked-zero t = refl

pub bit_type-int : (t : IrType) (w : ℕ) → t ≡ int w → bit_type t ≡ int 1
bit_type-int t w e = ap bit_type e

pub select_number :
    (c x y : Constant)
    → number (constants.select c x y) ≡ (if number c == 1 then number x else number y)
select_number c x y =
    ap
      (λ (k : ℕ).
        (if element c k == 1 then number x else number y)
        % 2 ^ width (if number c == 1 then x.type_of else y.type_of))
      (picked-zero c.type_of)
    ∙ select_at (number c == 1) x y 0

-- Where a comparison has one bit, its bit fits.
pub bit_mod : (t : IrType) (c : Bool) → width t ≡ 1 → bit c % 2 ^ width t ≡ bit c
bit_mod t c e = ap (λ (k : ℕ). bit c % 2 ^ k) e ∙ mod-eq_of_lt (bit-lt c)

unfoldable pub constants-Meaning : Meaning constants
constants-Meaning = record {
  den = number;
  den_lt = number-lt;
  const_int_ty = λ w n. refl;
  const_int_den = λ w n. refl;
  null_ty = λ t. refl;
  null_den = λ w. zero-mod (2 ^ w) (pow_pos w);
  bin_ty = λ o x y. refl;
  add_den = λ x y w t u. at_width w (λ k. number x + number y) (width-eq x.type_of w t);
  sub_den = λ x y w t u. at_width w (λ k. number x + 2 ^ k - number y) (width-eq x.type_of w t);
  mul_den = λ x y w t u. at_width w (λ k. number x * number y) (width-eq x.type_of w t);
  and_den = λ x y w t u.
      at_width_fits w (λ k. bit_and (number x) (number y)) (width-eq x.type_of w t)
        (lt_lem bit_and-IsDigitwise w (number x) (number y) (number-lt x w t) (number-lt y w u));
  or_den = λ x y w t u.
      at_width_fits w (λ k. bit_or (number x) (number y)) (width-eq x.type_of w t)
        (lt_lem bit_or-IsDigitwise w (number x) (number y) (number-lt x w t) (number-lt y w u));
  xor_den = λ x y w t u.
      at_width_fits w (λ k. bit_xor (number x) (number y)) (width-eq x.type_of w t)
        (lt_lem bit_xor-IsDigitwise w (number x) (number y) (number-lt x w t) (number-lt y w u));
  shl_den = λ x y w t h. at_width w (λ k. number x * 2 ^ number y) (width-eq x.type_of w t);
  lshr_den = λ x y w t h.
      at_width_fits w (λ k. number x / 2 ^ number y) (width-eq x.type_of w t)
        (lt-of_le (div-le_self (number x) (2 ^ number y)) (number-lt x w t));
  not_ty = λ x. refl;
  not_den = λ x w t.
      at_width_fits w (λ k. 2 ^ k - 1 - number x) (width-eq x.type_of w t)
        (omega (arith, one-le-pow w 2));
  neg_ty = λ x. refl;
  neg_den = λ x w t. at_width w (λ k. 2 ^ k - number x) (width-eq x.type_of w t);
  icmp_ty = λ p x y w t. bit_type-int x.type_of w t;
  icmp_den = λ p x y w t u.
      bit_mod (bit_type x.type_of) _ (ap width (bit_type-int x.type_of w t))
      ∙ ap (λ (n : ℕ). bit (holds p n (number x) (number y))) (width-eq x.type_of w t);
  select_ty = λ c x y e. same_type (number c == 1) x.type_of y.type_of e;
  select_den = select_number;
  cast_ty = λ c x t. refl;
  trunc_den = λ x w n t h. refl;
  zext_den = λ x w n t h. mod-eq_of_lt (lt-of_lt (number-lt x w t) (pow_mono w n h));
  trunc_or_bitcast_den = λ x w n t h. refl;
  ctpop_ty = λ x. refl;
  ctpop_den = λ x w t.
      at_width_fits w (λ k. ones k (number x)) (width-eq x.type_of w t) (ones-lt w (number x));
  ssa_copy_ty = λ x. refl;
  ssa_copy_den = λ x. refl;
  sadd_ty = λ x y. refl;
  sadd_den = λ x y w t u.
      mod-eq_of_lt (bit-lt _)
      ∙ ap (λ (n : ℕ). bit (signed_add_overflows n (number x) (number y))) (width-eq x.type_of w t);
}
