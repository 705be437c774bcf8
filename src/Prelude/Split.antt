-- ===== src/Prelude/Split.antt =====
-- Bit operations on numbers whose digits are split in a high and a low part.
use Prim.Native.Nat.{ℕ, zero, suc, ◌+◌, ◌*◌, ◌/◌, ◌%◌, ◌^◌, ◌≤◌, ◌<◌}
use Prim.Native.Nat.{bit_and, bit_or, bit_or-bitwise}
use mathlib.Core.Path.{◌≡◌, refl, sym, ap, ◌∙◌}
use native.Mathlib.Nat.{pow-suc, div-add-mod', mod-lt, div-lt_iff_lt-mul}
use native.Mathlib.Omega.{arith}
use rellume.Prelude.Bits.{
  IsDigitwise, bit_and-IsDigitwise, bit_or-IsDigitwise, bit_and-zero, lt-two-pow,
}
open bit_and-IsDigitwise use {step as and_step}
open bit_or-IsDigitwise use {step as or_step}

double : (h p : ℕ) → h * (p * 2) ≡ h * p * 2
double h p = omega arith

half : (h p l : ℕ) → (h * (p * 2) + l) / 2 ≡ h * p + l / 2
half h p l = rw (double h p) (omega arith)

digit : (h p l : ℕ) → (h * (p * 2) + l) % 2 ≡ l % 2
digit h p l = rw (double h p) (omega arith)

one : (h : ℕ) → h * 1 + 0 ≡ h
one h = omega arith

last_digit : (g : ℕ → ℕ → ℕ) (h h' : ℕ) → g (h * 1 + 0) (h' * 1 + 0) ≡ g h h' * 1 + 0
last_digit g h h' = rw (one h, one h') (sym (one (g h h')))

-- An operation works on the parts one by one.
pub join_lem :
    {g f : ℕ → ℕ → ℕ}
    → IsDigitwise g f
    → (k h l h' l' : ℕ) → l < 2 ^ k
    → l' < 2 ^ k
    → g (h * 2 ^ k + l) (h' * 2 ^ k + l') ≡ g h h' * 2 ^ k + g l l'
join_lem {g} {f} d zero h l h' l' p q =
    let e : l ≡ 0 = omega arith in
    let e' : l' ≡ 0 = omega arith in rw (e, e', d.blank) (last_digit g h h')
join_lem {g} {f} d (suc k) h l h' l' p q = rw (pow-suc 2 k) (
    d.step (h * (2 ^ k * 2) + l) (h' * (2 ^ k * 2) + l')
    ∙ (rw (half h (2 ^ k) l, half h' (2 ^ k) l', digit h (2 ^ k) l, digit h' (2 ^ k) l')
        (omega (
          arith,
          d.step l l',
          double (g h h') (2 ^ k),
          join_lem d k h (l / 2) h' (l' / 2) (omega (arith, pow-suc 2 k))
              (omega (arith, pow-suc 2 k)),
        ))))

bit_or-zero_upto : (n a : ℕ) → a ≤ n → bit_or a 0 ≡ a
bit_or-zero_upto n zero h = refl
bit_or-zero_upto zero (suc a) h = absurd (omega arith)
bit_or-zero_upto (suc n) (suc a) h =
    omega (arith, or_step (suc a) 0, bit_or-zero_upto n (suc a / 2) (omega arith))

pub bit_or-zero : (a : ℕ) → bit_or a 0 ≡ a
bit_or-zero a = bit_or-zero_upto a a (omega arith)

pub zero-bit_or : (a : ℕ) → bit_or 0 a ≡ a
zero-bit_or a = simp bit_or-bitwise refl

pub bit_and-ones : (k a m : ℕ) → a < 2 ^ k → m + 1 ≡ 2 ^ k → bit_and a m ≡ a
bit_and-ones zero a m p q =
    let e : a ≡ 0 = omega arith in let e' : m ≡ 0 = omega arith in rw (e, e') refl
bit_and-ones (suc k) a m p q = omega (
  arith,
  and_step a m,
  pow-suc 2 k,
  bit_and-ones k (a / 2) (m / 2) (omega (arith, pow-suc 2 k)) (omega (arith, pow-suc 2 k)),
)

pub plus_zero : (a : ℕ) → a ≡ a + 0
plus_zero a = omega arith

pub low_only : (p a : ℕ) → a ≡ 0 * p + a
low_only p a = omega arith

-- The digits above the lowest k are kept.
pub bit_and-high :
    (k n a m : ℕ) → a < 2 ^ n * 2 ^ k → m + 1 ≡ 2 ^ n → bit_and a (m * 2 ^ k) ≡ a / 2 ^ k * 2 ^ k
bit_and-high k n a m p q =
    let pos : 0 < 2 ^ k = omega (arith, lt-two-pow k) in
    let parts : a / 2 ^ k * 2 ^ k + a % 2 ^ k ≡ a = div-add-mod' a (2 ^ k) in
    let top : a / 2 ^ k < 2 ^ n = (div-lt_iff_lt-mul pos).1 p in
    ap (λ t. bit_and t (m * 2 ^ k)) (sym parts)
    ∙ ap (λ t. bit_and (a / 2 ^ k * 2 ^ k + a % 2 ^ k) t) (plus_zero (m * 2 ^ k))
    ∙ join_lem bit_and-IsDigitwise k (a / 2 ^ k) (a % 2 ^ k) m 0 (mod-lt a pos) pos
    ∙ rw (bit_and-zero (a % 2 ^ k), bit_and-ones n (a / 2 ^ k) m top q)
        (sym (plus_zero (a / 2 ^ k * 2 ^ k)))

-- The lowest k digits are kept.
pub bit_and-low : (k a m : ℕ) → m + 1 ≡ 2 ^ k → bit_and a m ≡ a % 2 ^ k
bit_and-low k a m q =
    let pos : 0 < 2 ^ k = omega (arith, lt-two-pow k) in
    ap (λ t. bit_and t m) (sym (div-add-mod' a (2 ^ k)))
    ∙ ap (λ t. bit_and (a / 2 ^ k * 2 ^ k + a % 2 ^ k) t) (low_only (2 ^ k) m)
    ∙ join_lem bit_and-IsDigitwise k (a / 2 ^ k) (a % 2 ^ k) 0 m (mod-lt a pos) (omega arith)
    ∙ rw (bit_and-zero (a / 2 ^ k), bit_and-ones k (a % 2 ^ k) m (mod-lt a pos) q)
        (sym (low_only (2 ^ k) (a % 2 ^ k)))

-- Numbers without a common digit are joined.
pub bit_or-join : (k h v : ℕ) → v < 2 ^ k → bit_or v (h * 2 ^ k) ≡ h * 2 ^ k + v
bit_or-join k h v p =
    ap (λ t. bit_or v t) (plus_zero (h * 2 ^ k))
    ∙ ap (λ t. bit_or t (h * 2 ^ k + 0)) (low_only (2 ^ k) v)
    ∙ join_lem bit_or-IsDigitwise k 0 v h 0 p (omega (arith, lt-two-pow k))
    ∙ rw (zero-bit_or h, bit_or-zero v) refl

pub join-bit_or : (k h v : ℕ) → v < 2 ^ k → bit_or (h * 2 ^ k) v ≡ h * 2 ^ k + v
join-bit_or k h v p =
    ap (λ t. bit_or t v) (plus_zero (h * 2 ^ k))
    ∙ ap (λ t. bit_or (h * 2 ^ k + 0) t) (low_only (2 ^ k) v)
    ∙ join_lem bit_or-IsDigitwise k h 0 0 v (omega (arith, lt-two-pow k)) p
    ∙ rw (zero-bit_or v, bit_or-zero h) refl
