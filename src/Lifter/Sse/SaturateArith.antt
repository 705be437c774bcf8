-- ===== src/Lifter/Sse/SaturateArith.antt =====
-- The numbers that the saturating instructions of src/lifter-sse.cc compute, against sums and
-- differences that are cut at the ends of the range. A signed pattern of h + 1 bits is compared by
-- its distance from the least number, 2 ^ h more than its value.
use native.Mathlib.Nat.{mod-eq_of_lt, one-le-pow, mod-lt}
use rellume.Prelude.{
  ℕ, ◌+◌, ◌-◌, ◌*◌, ◌%◌, ◌^◌, ◌≤◌, ◌<◌, ◌≡◌, ltb, if◌then◌else◌, true, false, suc, ap, ◌∙◌, arith,
}
use rellume.Ir.Meaning.Vector.{sign_extend}
use rellume.Lifter.Sse.SaturateNums.{
  clamped, narrow_signed, narrow_unsigned, mod_once, half_pow, four_le_pow,
}

-- The smaller of two numbers.
abbrev pub least : ℕ → ℕ → ℕ
least a b = if ltb a b then a else b

-- The distance of a signed pattern of h + 1 bits from the least signed number.
abbrev pub biased : ℕ → ℕ → ℕ
biased h r = (r + 2 ^ h) % 2 ^ suc h

biased_lem :
    (h r : ℕ) → r < 2 ^ suc h → biased h r ≡ (if ltb r (2 ^ h) then r + 2 ^ h else r - 2 ^ h)
biased_lem h r lt =
    mod_once (2 ^ suc h) (r + 2 ^ h) (omega (arith, half_pow h)) ∙ ground (arith, half_pow h)

extended : (h a : ℕ) → 1 ≤ h → a < 2 ^ suc h → sign_extend (suc h) (suc h * 2) a < 2 ^ (suc h * 2)
extended h a le lt = ground (arith, four_le_pow h le, lt)

-- The result of a signed operation, by the pattern of twice the width that is cut.
pub signed_result :
    (h x : ℕ)
    → 1 ≤ h
    → x < 2 ^ (suc h * 2)
    → biased h (clamped (suc h * 2) true x % 2 ^ suc h) ≡ (
        if ltb (2 * x) (2 ^ (suc h * 2))
        then least (x + 2 ^ h) (2 ^ suc h - 1)
        else x + 2 ^ h - 2 ^ (suc h * 2))
signed_result h x le lt =
    ap (λ (k : ℕ). biased h k) (narrow_signed h x le lt)
    ∙ biased_lem h _ (ground (arith, half_pow h, four_le_pow h le, one-le-pow h 2, lt))
    ∙ ground (arith, half_pow h, four_le_pow h le, one-le-pow h 2, lt)

pub add_signed :
    (h a c : ℕ)
    → 1 ≤ h
    → a < 2 ^ suc h
    → c < 2 ^ suc h
    → biased h (
        clamped (suc h * 2) true (
          (sign_extend (suc h) (suc h * 2) a + sign_extend (suc h) (suc h * 2) c) % 2 ^ (suc h * 2))
        % 2 ^ suc h)
      ≡ least (biased h a + biased h c - 2 ^ h) (2 ^ suc h - 1)
add_signed h a c le lta ltc =
    signed_result h _ le (mod-lt _ (omega (arith, one-le-pow (suc h * 2) 2)))
    ∙ rw
        (
          biased_lem h a lta,
          biased_lem h c ltc,
          mod_once (2 ^ (suc h * 2))
              (sign_extend (suc h) (suc h * 2) a + sign_extend (suc h) (suc h * 2) c)
              (omega (arith, extended h a le lta, extended h c le ltc)),
        )
        (ground (arith, half_pow h, four_le_pow h le, one-le-pow h 2, lta, ltc))

pub sub_signed :
    (h a c : ℕ)
    → 1 ≤ h
    → a < 2 ^ suc h
    → c < 2 ^ suc h
    → biased h (
        clamped (suc h * 2) true (
          (sign_extend (suc h) (suc h * 2) a + 2 ^ (suc h * 2) - sign_extend (suc h) (suc h * 2) c)
          % 2 ^ (suc h * 2))
        % 2 ^ suc h)
      ≡ least (biased h a + 2 ^ h - biased h c) (2 ^ suc h - 1)
sub_signed h a c le lta ltc =
    signed_result h _ le (mod-lt _ (omega (arith, one-le-pow (suc h * 2) 2)))
    ∙ rw
        (
          biased_lem h a lta,
          biased_lem h c ltc,
          mod_once (2 ^ (suc h * 2))
              (sign_extend (suc h) (suc h * 2) a
                + 2 ^ (suc h * 2)
                - sign_extend (suc h) (suc h * 2) c)
              (omega (arith, extended h a le lta, extended h c le ltc, one-le-pow (suc h * 2) 2)),
        )
        (ground (arith, half_pow h, four_le_pow h le, one-le-pow h 2, lta, ltc))

fits : (h a c : ℕ) → 1 ≤ h → a < 2 ^ suc h → c < 2 ^ suc h → a + c < 2 ^ (suc h * 2)
fits h a c le lta ltc = omega (arith, four_le_pow h le)

pub add_unsigned :
    (h a c : ℕ)
    → 1 ≤ h
    → a < 2 ^ suc h
    → c < 2 ^ suc h
    → clamped (suc h * 2) false ((a + c) % 2 ^ (suc h * 2)) % 2 ^ suc h
      ≡ least (a + c) (2 ^ suc h - 1)
add_unsigned h a c le lta ltc =
    narrow_unsigned h _ le (mod-lt _ (omega (arith, one-le-pow (suc h * 2) 2)))
    ∙ rw (mod-eq_of_lt (fits h a c le lta ltc))
        (ground (arith, four_le_pow h le, one-le-pow h 2, lta, ltc))

pub sub_unsigned :
    (h a c : ℕ)
    → 1 ≤ h
    → a < 2 ^ suc h
    → c < 2 ^ suc h
    → clamped (suc h * 2) false ((a + 2 ^ (suc h * 2) - c) % 2 ^ (suc h * 2)) % 2 ^ suc h ≡ a - c
sub_unsigned h a c le lta ltc =
    narrow_unsigned h _ le (mod-lt _ (omega (arith, one-le-pow (suc h * 2) 2)))
    ∙ rw
        (mod_once (2 ^ (suc h * 2)) (a + 2 ^ (suc h * 2) - c)
          (omega (arith, four_le_pow h le, one-le-pow (suc h) 2)))
        (ground (arith, four_le_pow h le, one-le-pow h 2, lta, ltc))
