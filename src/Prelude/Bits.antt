-- ===== src/Prelude/Bits.antt =====
-- Laws of the bit operations at every width. An operation is digitwise if its lowest digit is
-- computed from the lowest digits; what follows is proved once for all such operations.
use Prim.Native.Nat.{ℕ, zero, suc, ◌+◌, ◌*◌, ◌/◌, ◌%◌, ◌^◌, ◌≤◌, ◌<◌, min, max}
use Prim.Native.Nat.{bit_and, bit_or, bit_xor, digits, bitwise, differ}
use Prim.Native.Nat.{bit_and-bitwise, bit_or-bitwise, bit_xor-bitwise}
use mathlib.Core.Path.{◌≡◌, refl, sym, ap, ◌∙◌}
use native.Mathlib.Nat.{pow-suc, pow-succ', div-div-eq-div-mul}
use native.Mathlib.Omega.{arith}

-- The recursion of `bitwise` does not depend on its count of digits, if that is large enough.
count_is_enough :
    (z : ℕ → ℕ) (f : ℕ → ℕ → ℕ) (n a b k : ℕ) → a ≤ n → a ≤ k → digits z f n a b ≡ digits z f k a b
count_is_enough z f zero zero b zero h g = refl
count_is_enough z f zero zero b (suc k) h g = refl
count_is_enough z f (suc n) zero b zero h g = refl
count_is_enough z f (suc n) zero b (suc k) h g = refl
count_is_enough z f (suc n) (suc a) b (suc k) h g =
    ap (λ (t : ℕ). t * 2 + f (suc a % 2) (b % 2))
      (count_is_enough z f n (suc a / 2) (b / 2) k (omega arith) (omega arith))
count_is_enough z f zero (suc a) b k h g = absurd (omega arith)
count_is_enough z f (suc n) (suc a) b zero h g = absurd (omega arith)

bitwise-suc :
    (z : ℕ → ℕ) (f : ℕ → ℕ → ℕ) (a b : ℕ)
    → bitwise z f (suc a) b ≡ bitwise z f (suc a / 2) (b / 2) * 2 + f (suc a % 2) (b % 2)
bitwise-suc z f a b =
    ap (λ (t : ℕ). t * 2 + f (suc a % 2) (b % 2))
      (count_is_enough z f a (suc a / 2) (b / 2) (suc a / 2) (omega arith) (omega arith))

-- The exclusive or of two digits.
abbrev pub xor_digit : ℕ → ℕ → ℕ
xor_digit a b = (a + b) % 2

pub record IsDigitwise (g f : ℕ → ℕ → ℕ) : Type 0 where
  pub step : (a b : ℕ) → g a b ≡ g (a / 2) (b / 2) * 2 + f (a % 2) (b % 2)
  pub digit : (a b : ℕ) → f (a % 2) (b % 2) < 2
  pub blank : g 0 0 ≡ 0

differ-xor_digit : (a b : ℕ) → a < 2 → b < 2 → differ a b ≡ xor_digit a b
differ-xor_digit zero b p q = omega arith
differ-xor_digit (suc zero) zero p q = refl
differ-xor_digit (suc zero) (suc zero) p q = refl
differ-xor_digit (suc (suc a)) b p q = absurd (omega arith)
differ-xor_digit (suc zero) (suc (suc b)) p q = absurd (omega arith)

xor_step : (a b : ℕ) → bit_xor a b ≡ bit_xor (a / 2) (b / 2) * 2 + xor_digit (a % 2) (b % 2)
xor_step zero b = simp bit_xor-bitwise (omega arith)
xor_step (suc a) b = simp bit_xor-bitwise (
    bitwise-suc (λ y. y) differ a b
    ∙ ap (λ (t : ℕ). bitwise (λ y. y) differ (suc a / 2) (b / 2) * 2 + t)
        (differ-xor_digit (suc a % 2) (b % 2) (omega arith) (omega arith)))

and_step : (a b : ℕ) → bit_and a b ≡ bit_and (a / 2) (b / 2) * 2 + min (a % 2) (b % 2)
and_step zero b = simp bit_and-bitwise (omega arith)
and_step (suc a) b = simp bit_and-bitwise (bitwise-suc (λ y. 0) min a b)

or_step : (a b : ℕ) → bit_or a b ≡ bit_or (a / 2) (b / 2) * 2 + max (a % 2) (b % 2)
or_step zero b = simp bit_or-bitwise (omega arith)
or_step (suc a) b = simp bit_or-bitwise (bitwise-suc (λ y. y) max a b)

pub bit_and-IsDigitwise : IsDigitwise bit_and min
bit_and-IsDigitwise = record { step = and_step; digit = λ a b. omega arith; blank = refl }

pub bit_or-IsDigitwise : IsDigitwise bit_or max
bit_or-IsDigitwise = record { step = or_step; digit = λ a b. omega arith; blank = refl }

pub bit_xor-IsDigitwise : IsDigitwise bit_xor xor_digit
bit_xor-IsDigitwise = record { step = xor_step; digit = λ a b. omega arith; blank = refl }

pub lt-two-pow : (w : ℕ) → w < 2 ^ w
lt-two-pow zero = omega arith
lt-two-pow (suc w) = omega (arith, pow-suc 2 w, lt-two-pow w)

zero_of_lt_one : (a : ℕ) → a < 1 → a ≡ 0
zero_of_lt_one a h = omega arith

div-one : (a : ℕ) → a / 1 ≡ a
div-one a = omega arith

pub div-two-pow : (k a : ℕ) → a / 2 ^ suc k ≡ a / 2 / 2 ^ k
div-two-pow k a = rw (pow-succ' 2 k) (sym (div-div-eq-div-mul a 2 (2 ^ k)))

-- A k-bit number without its lowest digit.
half-lt : (k a : ℕ) → a < 2 ^ suc k → a / 2 < 2 ^ k
half-lt k a h = omega (arith, pow-suc 2 k)

module _ {g f : ℕ → ℕ → ℕ} (d : IsDigitwise g f) where
  half_lem : (a b : ℕ) → g a b / 2 ≡ g (a / 2) (b / 2)
  half_lem a b = omega (arith, d.step a b, d.digit a b)

  pub digit_lem : (a b : ℕ) → g a b % 2 ≡ f (a % 2) (b % 2)
  digit_lem a b = omega (arith, d.step a b, d.digit a b)

  -- Shifting right commutes with the operation.
  pub shift_lem : (k a b : ℕ) → g a b / 2 ^ k ≡ g (a / 2 ^ k) (b / 2 ^ k)
  shift_lem zero a b = simp (div-one)
  shift_lem (suc k) a b =
      rw (div-two-pow k (g a b), div-two-pow k a, div-two-pow k b, half_lem a b)
        (shift_lem k (a / 2) (b / 2))

  -- Digit `k` of the result is computed from the digits `k`.
  pub digit_at_lem : (k a b : ℕ) → g a b / 2 ^ k % 2 ≡ f (a / 2 ^ k % 2) (b / 2 ^ k % 2)
  digit_at_lem k a b = rw (shift_lem k a b) (digit_lem (a / 2 ^ k) (b / 2 ^ k))

  pub lt_lem : (k a b : ℕ) → a < 2 ^ k → b < 2 ^ k → g a b < 2 ^ k
  lt_lem zero a b p q = rw ((zero_of_lt_one a p), (zero_of_lt_one b q)) (omega (arith, d.blank))
  lt_lem (suc k) a b p q = omega (
    arith,
    d.step a b,
    d.digit a b,
    pow-suc 2 k,
    lt_lem k (a / 2) (b / 2) (half-lt k a p) (half-lt k b q),
  )

bit_and-zero_upto : (n a : ℕ) → a ≤ n → bit_and a 0 ≡ 0
bit_and-zero_upto n zero h = refl
bit_and-zero_upto zero (suc a) h = absurd (omega arith)
bit_and-zero_upto (suc n) (suc a) h =
    omega (arith, and_step (suc a) 0, bit_and-zero_upto n (suc a / 2) (omega arith))

pub bit_and-zero : (a : ℕ) → bit_and a 0 ≡ 0
bit_and-zero a = bit_and-zero_upto a a (omega arith)

bit_and-double : (a p : ℕ) → bit_and a (p * 2) ≡ bit_and (a / 2) p * 2
bit_and-double a p =
    let half : p * 2 / 2 ≡ p = omega arith in
    omega (arith, and_step a (p * 2), ap (λ (t : ℕ). bit_and (a / 2) t) half)

-- A power of two selects one digit.
pub bit_and-pow : (k a : ℕ) → bit_and a (2 ^ k) ≡ a / 2 ^ k % 2 * 2 ^ k
bit_and-pow zero a = omega (arith, and_step a 1, bit_and-zero (a / 2))
bit_and-pow (suc k) a =
    rw (div-two-pow k a, pow-suc 2 k)
      (omega (arith, bit_and-double a (2 ^ k), ap (λ (t : ℕ). t * 2) (bit_and-pow k (a / 2))))

mod-two_small : (a : ℕ) → a < 2 → a ≡ a % 2
mod-two_small a h = omega arith

div-lt-two : (k a : ℕ) → a < 2 ^ suc k → a / 2 ^ k < 2
div-lt-two zero a h = omega arith
div-lt-two (suc k) a h = rw (div-two-pow k a) (div-lt-two k (a / 2) (half-lt (suc k) a h))

-- The top digit of a k-bit number says whether the number reaches half of the range.
pub top_digit : (k a : ℕ) → a < 2 ^ suc k → a / 2 ^ k ≡ a / 2 ^ k % 2
top_digit k a h = mod-two_small (a / 2 ^ k) (div-lt-two k a h)
