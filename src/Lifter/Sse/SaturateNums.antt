-- ===== src/Lifter/Sse/SaturateNums.antt =====
-- Saturation in numbers: the constants of SaturateTrunc in src/lifter-sse.cc, and what its two
-- selections and the truncation make of a pattern.
use native.Mathlib.Nat.{
  mod-eq_of_lt, mul-le-mul_left, pow-suc, one-le-pow, mul-add-mod_self_right, add-mod_right,
}
use rellume.Prelude.{
  ℕ, ◌+◌, ◌-◌, ◌*◌, ◌/◌, ◌%◌, ◌^◌, ◌≤◌, ◌<◌, ◌≡◌, ltb, if◌then◌else◌, Bool, true, false, zero, suc,
  Bool-cases, inl, inr, refl, ap, ◌∙◌, arith,
}
use rellume.Ir.Meaning.{signed_lt}
use rellume.Lifter.Sse.Saturate.{saturate_min, saturate_max}

-- The two selections of SaturateTrunc on a pattern of `s` bits.
abbrev pub raised : ℕ → Bool → ℕ → ℕ
raised s sign x = if signed_lt s x (saturate_min s sign) then saturate_min s sign else x

abbrev pub clamped : ℕ → Bool → ℕ → ℕ
clamped s sign x =
    if signed_lt s (saturate_max s sign) (raised s sign x)
    then saturate_max s sign
    else raised s sign x

square_double : (a : ℕ) → a * a * 2 * 2 ≡ a * 2 * (a * 2)
square_double a = omega arith

-- Powers of a width, its double, and its half of the range.
pub double_pow : (v : ℕ) → 2 ^ (v * 2) ≡ 2 ^ v * 2 ^ v
double_pow zero = refl
double_pow (suc v) =
    let e : suc v * 2 ≡ suc (suc (v * 2)) = omega arith in
    rw (e, pow-suc 2 (suc (v * 2)), pow-suc 2 (v * 2), pow-suc 2 v, double_pow v)
      (square_double (2 ^ v))

pub half_pow : (h : ℕ) → 2 ^ suc h ≡ 2 * 2 ^ h
half_pow h = omega (arith, pow-suc 2 h)

four-le : (a c : ℕ) → a ≡ 2 * c → 2 ≤ c → a * 4 ≤ a * a
four-le a c e h = mul-le-mul_left a (omega arith)

pub four_le_pow : (h : ℕ) → 1 ≤ h → 2 ^ suc h * 4 ≤ 2 ^ (suc h * 2)
four_le_pow zero le = absurd (omega arith)
four_le_pow (suc h) le = rw (double_pow (suc (suc h))) (
    four-le (2 ^ suc (suc h)) (2 ^ suc h) (half_pow (suc h))
      (omega (arith, half_pow h, one-le-pow h 2)))

-- The lowest v bits of a pattern of 2v bits that is near the end of the range.
pub mod_top : (p r : ℕ) → r < p → (p * p - p + r) % p ≡ r
mod_top zero r h = absurd (omega arith)
mod_top (suc q) r h =
    let e : suc q * suc q - suc q ≡ q * suc q = omega arith in
    rw e (mul-add-mod_self_right q (suc q) r ∙ mod-eq_of_lt h)

-- The constants at twice the width of h + 1 bits.
pub half_width : (v : ℕ) → v * 2 / 2 ≡ v
half_width v = omega arith

half_less : (h : ℕ) → suc h * 2 / 2 - 1 ≡ h
half_less h = omega arith

pub saturate_min_signed : (h : ℕ) → saturate_min (suc h * 2) true ≡ 2 ^ (suc h * 2) - 2 ^ h
unfolding saturate_min
saturate_min_signed h = ap (λ (k : ℕ). 2 ^ (suc h * 2) - 2 ^ k) (half_less h)

pub saturate_max_signed : (h : ℕ) → saturate_max (suc h * 2) true ≡ 2 ^ h - 1
unfolding saturate_max
saturate_max_signed h = ap (λ (k : ℕ). 2 ^ k - 1) (half_less h)

pub saturate_max_unsigned : (v : ℕ) → saturate_max (v * 2) false ≡ 2 ^ v - 1
unfolding saturate_max
saturate_max_unsigned v = ap (λ (k : ℕ). 2 ^ k - 1) (half_width v)

-- A signed pattern of twice the width, by its place in the range.
pub clamped_signed :
    (h x : ℕ)
    → 1 ≤ h
    → x < 2 ^ (suc h * 2)
    → clamped (suc h * 2) true x ≡ (
        if ltb x (2 ^ h)
        then x
        else if ltb (2 * x) (2 ^ (suc h * 2))
        then 2 ^ h - 1
        else if ltb x (2 ^ (suc h * 2) - 2 ^ h)
        then 2 ^ (suc h * 2) - 2 ^ h
        else x)
clamped_signed h x le lt =
    rw (saturate_min_signed h, saturate_max_signed h)
      (ground (arith, half_pow h, four_le_pow h le, one-le-pow h 2, le, lt))

pub saturate_min_unsigned : (v : ℕ) → saturate_min (v * 2) false ≡ 0
unfolding saturate_min
saturate_min_unsigned v = refl

pub clamped_unsigned :
    (h x : ℕ)
    → 1 ≤ h
    → x < 2 ^ (suc h * 2)
    → clamped (suc h * 2) false x ≡ (
        if ltb x (2 ^ suc h) then x else if ltb (2 * x) (2 ^ (suc h * 2)) then 2 ^ suc h - 1 else 0)
clamped_unsigned h x le lt =
    rw (saturate_min_unsigned (suc h), saturate_max_unsigned (suc h))
      (ground (arith, four_le_pow h le, one-le-pow (suc h) 2, le, lt))

-- A remainder of a choice.
pub if_mod :
    (c : Bool) (p a b : ℕ) {k l : ℕ}
    → (c ≡ true → a % p ≡ k)
    → (c ≡ false → b % p ≡ l)
    → (if c then a else b) % p ≡ (if c then k else l)
if_mod true p a b f g = f refl
if_mod false p a b f g = g refl

put_back : (q s : ℕ) → q ≤ s → s ≡ s - q + q
put_back q s le = omega arith

mod_over : (q s : ℕ) → q ≤ s → s < q + q → s % q ≡ s - q
mod_over q s le lt =
    ap (λ (k : ℕ). k % q) (put_back q s le) ∙ add-mod_right (s - q) q ∙ mod-eq_of_lt (omega arith)

-- A number below twice a modulus.
pub mod_once : (q s : ℕ) → s < q + q → s % q ≡ (if ltb s q then s else s - q)
mod_once q s lt = elim (Bool-cases (ltb s q)) [
  | inl e ↦ rw e (mod-eq_of_lt (ground (arith, e)))
  | inr e ↦ rw e (mod_over q s (ground (arith, e)) lt)
]

-- A pattern near the end of the range, by its distance from the last multiple of 2 ^ v.
mod_end :
    (h r : ℕ) → r < 2 ^ suc h → (x : ℕ) → x ≡ 2 ^ (suc h * 2) - 2 ^ suc h + r → x % 2 ^ suc h ≡ r
mod_end h r lt x e =
    ap (λ (k : ℕ). k % 2 ^ suc h) (e ∙ ap (λ (q : ℕ). q - 2 ^ suc h + r) (double_pow (suc h)))
    ∙ mod_top (2 ^ suc h) r lt

-- The truncation of a result: the numbers that reach it are below 2 ^ h or at the end of the range.
pub narrow_signed :
    (h x : ℕ)
    → 1 ≤ h
    → x < 2 ^ (suc h * 2)
    → clamped (suc h * 2) true x % 2 ^ suc h ≡ (
        if ltb x (2 ^ h)
        then x
        else if ltb (2 * x) (2 ^ (suc h * 2))
        then 2 ^ h - 1
        else if ltb x (2 ^ (suc h * 2) - 2 ^ h)
        then 2 ^ h
        else x - (2 ^ (suc h * 2) - 2 ^ suc h))
narrow_signed h x le lt =
    ap (λ (k : ℕ). k % 2 ^ suc h) (clamped_signed h x le lt)
    ∙ if_mod (ltb x (2 ^ h)) (2 ^ suc h) _ _ (λ e. mod-eq_of_lt (ground (arith, e, half_pow h)))
        (λ e.
          if_mod (ltb (2 * x) (2 ^ (suc h * 2))) (2 ^ suc h) _ _
            (λ f. mod-eq_of_lt (omega (arith, half_pow h, one-le-pow h 2)))
            (λ f.
              if_mod (ltb x (2 ^ (suc h * 2) - 2 ^ h)) (2 ^ suc h) _ _
                (λ g.
                  mod_end h (2 ^ h) (omega (arith, half_pow h, one-le-pow h 2)) _
                    (omega (arith, half_pow h, four_le_pow h le)))
                (λ g.
                  mod_end h (x - (2 ^ (suc h * 2) - 2 ^ suc h))
                    (omega (arith, lt, four_le_pow h le, one-le-pow (suc h) 2)) x
                    (ground (arith, g, half_pow h, four_le_pow h le)))))

pub narrow_unsigned :
    (h x : ℕ)
    → 1 ≤ h
    → x < 2 ^ (suc h * 2)
    → clamped (suc h * 2) false x % 2 ^ suc h ≡ (
        if ltb x (2 ^ suc h) then x else if ltb (2 * x) (2 ^ (suc h * 2)) then 2 ^ suc h - 1 else 0)
narrow_unsigned h x le lt =
    ap (λ (k : ℕ). k % 2 ^ suc h) (clamped_unsigned h x le lt)
    ∙ mod-eq_of_lt (ground (arith, one-le-pow (suc h) 2))
