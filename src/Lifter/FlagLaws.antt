-- ===== src/Lifter/FlagLaws.antt =====
-- Arithmetic behind the flags: what the bit tricks of FlagCalcAdd, FlagCalcSub and FlagCalcA say of
-- the numbers.
use native.Mathlib.Nat.{pow-suc, mod-eq_of_lt, mod-eq-sub-mod, div-eq_of_lt, div-eq-sub-div}
use rellume.Prelude.{
  ℕ, zero, suc, ◌+◌, ◌-◌, ◌*◌, ◌/◌, ◌%◌, ◌^◌, ◌≤◌, ◌<◌, ◌≡◌, ◌==◌, ltb, leb, ◌&&◌, not, Bool, true,
  false, bit_and, bit_xor, arith, refl, ◌∙◌, ap, bit, ◌⊎◌, inl, inr, Bool-cases,
}
use rellume.Prelude.Bits.{
  bit_and-IsDigitwise, bit_xor-IsDigitwise, digit_at_lem, lt_lem, bit_and-pow,
}
use rellume.Ir.Meaning.{negative, signed_lt, signed_add_overflows, signed_sub_overflows}

-- A number below twice the modulus is wrapped at most once.
pub mod_once : (s d : ℕ) → s < 2 * d → ((s < d) × (s % d ≡ s)) ⊎ ((d ≤ s) × (s % d ≡ s - d))
mod_once s d h = elim (Bool-cases (ltb s d)) [
  | inl lt ↦ inl (ground arith, mod-eq_of_lt (ground arith))
  | inr ge ↦ inr (ground arith, mod-eq-sub-mod (ground arith) ∙ mod-eq_of_lt (ground arith))
]

-- The quotient of such a number is its top digit.
div_once : (s d : ℕ) → s < 2 * d → ((s < d) × (s / d ≡ 0)) ⊎ ((d ≤ s) × (s / d ≡ 1))
div_once s d h = elim (Bool-cases (ltb s d)) [
  | inl lt ↦ inl (ground arith, div-eq_of_lt (ground arith))
  | inr ge ↦
      let le : d ≤ s = ground arith in
      let pos : 0 < d = omega arith in
      inr (le, div-eq-sub-div pos le ∙ ap (λ (t : ℕ). t + 1) (div-eq_of_lt (omega arith)))
]

abbrev pub bit_xor_bool : Bool → Bool → Bool
bit_xor_bool true c = not c
bit_xor_bool false c = c

top : (k n : ℕ) → n < 2 ^ suc k → negative (suc k) n ≡ (n / 2 ^ k % 2 == 1)
top k n h = elim (div_once n (2 ^ k) (omega (arith, pow-suc 2 k))) [
  | inl (lt, e) ↦ rw e (ground (arith, pow-suc 2 k))
  | inr (le, e) ↦ rw e (ground (arith, pow-suc 2 k))
]

pub negative-xor :
    (k m n : ℕ)
    → m < 2 ^ suc k
    → n < 2 ^ suc k
    → negative (suc k) (bit_xor m n) ≡ bit_xor_bool (negative (suc k) m) (negative (suc k) n)
negative-xor k m n hm hn =
    rw
      (
        top k (bit_xor m n) (lt_lem bit_xor-IsDigitwise (suc k) m n hm hn),
        top k m hm,
        top k n hn,
        digit_at_lem bit_xor-IsDigitwise k m n,
      )
      (ground arith)

pub negative-and :
    (k m n : ℕ)
    → m < 2 ^ suc k
    → n < 2 ^ suc k
    → negative (suc k) (bit_and m n) ≡ (negative (suc k) m && negative (suc k) n)
negative-and k m n hm hn =
    rw
      (
        top k (bit_and m n) (lt_lem bit_and-IsDigitwise (suc k) m n hm hn),
        top k m hm,
        top k n hn,
        digit_at_lem bit_and-IsDigitwise k m n,
      )
      (ground arith)

pub negative-not :
    (k m : ℕ) → m < 2 ^ suc k → negative (suc k) (2 ^ suc k - 1 - m) ≡ not (negative (suc k) m)
negative-not k m h = ground (arith, pow-suc 2 k)

pub carry_of_sum :
    (w m n : ℕ) → m < 2 ^ w → n < 2 ^ w → ltb ((m + n) % 2 ^ w) m ≡ leb (2 ^ w) (m + n)
carry_of_sum w m n hm hn = ground (arith, mod_once (m + n) (2 ^ w))

pub sub_overflow :
    (w m n : ℕ)
    → m < 2 ^ w
    → n < 2 ^ w
    → not (bit (negative w ((m + 2 ^ w - n) % 2 ^ w)) == bit (signed_lt w m n))
      ≡ signed_sub_overflows w m n
sub_overflow w m n hm hn = ground (arith, mod_once (m + 2 ^ w - n) (2 ^ w))

-- The sign of the wrapped sum differs from that of both operands.
pub add_overflow_lem :
    (w m n : ℕ)
    → m < 2 ^ w
    → n < 2 ^ w
    → (not (bit_xor_bool (negative w m) (negative w n))
        && bit_xor_bool (negative w ((m + n) % 2 ^ w)) (negative w m))
      ≡ signed_add_overflows w m n
add_overflow_lem w m n hm hn = ground (arith, mod_once (m + n) (2 ^ w))

-- The signed comparison by the flags: SF differs from OF.
pub less_of_flags :
    (w m n : ℕ)
    → m < 2 ^ w
    → n < 2 ^ w
    → bit_xor_bool (negative w ((m + 2 ^ w - n) % 2 ^ w)) (signed_sub_overflows w m n)
      ≡ signed_lt w m n
less_of_flags w m n hm hn = ground (arith, mod_once (m + 2 ^ w - n) (2 ^ w))

-- Two numbers are the same exactly if their difference wraps to 0.
pub sub_is_zero : (w m n : ℕ) → m < 2 ^ w → n < 2 ^ w → ((m + 2 ^ w - n) % 2 ^ w == 0) ≡ (m == n)
sub_is_zero w m n hm hn = ground (arith, mod_once (m + 2 ^ w - n) (2 ^ w))

two_pow_five : (j : ℕ) → 2 ^ suc (suc (suc (suc (suc j)))) ≡ 32 * 2 ^ j
two_pow_five j = omega (
  arith,
  pow-suc 2 (suc (suc (suc (suc j)))),
  pow-suc 2 (suc (suc (suc j))),
  pow-suc 2 (suc (suc j)),
  pow-suc 2 (suc j),
  pow-suc 2 j,
)

-- A modulus of at least five bits is a multiple of 32.
pub multiple_of_32 : (w : ℕ) → 5 ≤ w → (q : ℕ) × (2 ^ w ≡ 32 * q)
multiple_of_32 (suc (suc (suc (suc (suc j))))) h = (2 ^ j, two_pow_five j)
multiple_of_32 zero h = absurd (omega arith)
multiple_of_32 (suc zero) h = absurd (omega arith)
multiple_of_32 (suc (suc zero)) h = absurd (omega arith)
multiple_of_32 (suc (suc (suc zero))) h = absurd (omega arith)
multiple_of_32 (suc (suc (suc (suc zero)))) h = absurd (omega arith)

-- Digit 4 of the operands and of the result differ by the carry out of the lowest four digits.
pub adjust_of_sum :
    (q d m n : ℕ)
    → d ≡ 32 * q
    → m < d
    → n < d
    → ((m / 16 % 2 + n / 16 % 2) % 2 + (m + n) % d / 16 % 2) % 2 ≡ bit (leb 16 (m % 16 + n % 16))
adjust_of_sum q d m n e hm hn = ground (arith, mod_once (m + n) d)

pub adjust_of_difference :
    (q d m n : ℕ)
    → d ≡ 32 * q
    → m < d
    → n < d
    → ((m / 16 % 2 + n / 16 % 2) % 2 + (m + d - n) % d / 16 % 2) % 2 ≡ bit (ltb (m % 16) (n % 16))
adjust_of_difference q d m n e hm hn = ground (arith, mod_once (m + d - n) d)

-- The mask 16 of FlagCalcA selects digit 4.
pub adjust_digit :
    (m n r : ℕ)
    → bit_and (bit_xor (bit_xor m n) r) 16 ≡ ((m / 16 % 2 + n / 16 % 2) % 2 + r / 16 % 2) % 2 * 16
adjust_digit m n r =
    bit_and-pow 4 (bit_xor (bit_xor m n) r)
    ∙ ap (λ (t : ℕ). t * 16)
        (digit_at_lem bit_xor-IsDigitwise 4 (bit_xor m n) r
          ∙ ap (λ (t : ℕ). (t + r / 16 % 2) % 2) (digit_at_lem bit_xor-IsDigitwise 4 m n))

-- The sign of `~(m ^ n) & (r ^ m)`.
pub overflow_bits :
    (w m n r : ℕ)
    → 0 < w
    → m < 2 ^ w
    → n < 2 ^ w
    → r < 2 ^ w
    → negative w (bit_and (2 ^ w - 1 - bit_xor m n) (bit_xor r m)) ≡ (
        not (bit_xor_bool (negative w m) (negative w n))
        && bit_xor_bool (negative w r) (negative w m))
overflow_bits zero m n r pos hm hn hr = elim pos [ ]
overflow_bits (suc k) m n r pos hm hn hr =
    let mn : bit_xor m n < 2 ^ suc k = lt_lem bit_xor-IsDigitwise (suc k) m n hm hn in
    let rm : bit_xor r m < 2 ^ suc k = lt_lem bit_xor-IsDigitwise (suc k) r m hr hm in
    rw
      (
        negative-and k (2 ^ suc k - 1 - bit_xor m n) (bit_xor r m) (omega arith) rm,
        negative-not k (bit_xor m n) mn,
        negative-xor k m n hm hn,
        negative-xor k r m hr hm,
      )
      refl
