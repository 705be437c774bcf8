-- ===== src/Lifter/PartValue.antt =====
-- src/lifter-operand.cc: the numbers of the values that OpStoreGp stores to a part of a register.
use rellume.Prelude.{ℕ, ◌+◌, ◌*◌, ◌/◌, ◌%◌, ◌^◌, ◌<◌, ◌≡◌, refl, ap, ◌∙◌, arith, bit_and, bit_or}
use rellume.Prelude.Bits.{bit_or-IsDigitwise, bit_and-IsDigitwise}
use rellume.Prelude.Split.{
  low_only, join-bit_or, join_lem, bit_and-high, bit_and-low, bit_and-ones, bit_or-join,
  zero-bit_or,
}
use rellume.Facet.{Facet, facet_eq}
use rellume.Ir.{Builder, int, BinaryOp, CastOp}
use rellume.Ir.Meaning.{Meaning}
use rellume.Lifter.Monad.{Config}
use rellume.Lifter.Operand.{widen, kept_mask}

-- The facets whose store keeps a part of the register, and their widths.
pub data IsPart : Facet → ℕ → Type 0 where
  low_byte : IsPart Facet.i8 8
  high_byte : IsPart Facet.i8h 8
  low_word : IsPart Facet.i16 16

-- The new number of a 64-bit register whose part is written.
abbrev pub replace_part : Facet → ℕ → ℕ → ℕ
replace_part Facet.i8 old new = old / 2 ^ 8 * 2 ^ 8 + new
replace_part Facet.i8h old new = old / 2 ^ 16 * 2 ^ 16 + (new * 2 ^ 8 + old % 2 ^ 8)
replace_part Facet.i16 old new = old / 2 ^ 16 * 2 ^ 16 + new
replace_part f old new = new

keep_high_byte :
    (old : ℕ) → old < 2 ^ 64 → bit_and old 0xffffffffffff00ff ≡ old / 2 ^ 16 * 2 ^ 16 + old % 2 ^ 8
keep_high_byte old p =
    ap (λ t. bit_and t 0xffffffffffff00ff) (omega arith)
    ∙ join_lem bit_and-IsDigitwise 16 (old / 2 ^ 16) (old % 2 ^ 16) (0xffffffffffff) 255
        (omega arith) (omega arith)
    ∙ rw
        (
          bit_and-ones 48 (old / 2 ^ 16) (0xffffffffffff) (omega arith) refl,
          bit_and-low 8 (old % 2 ^ 16) 255 refl,
        )
        (omega arith)

or_middle :
    (h v l : ℕ)
    → v < 2 ^ 8
    → l < 2 ^ 8
    → bit_or (v * 2 ^ 8) (h * 2 ^ 16 + l) ≡ h * 2 ^ 16 + (v * 2 ^ 8 + l)
or_middle h v l p q =
    ap (λ t. bit_or t (h * 2 ^ 16 + l)) (low_only (2 ^ 16) (v * 2 ^ 8))
    ∙ join_lem bit_or-IsDigitwise 16 0 (v * 2 ^ 8) h l (omega arith) (omega arith)
    ∙ rw (zero-bit_or h, join-bit_or 8 v l q) refl

-- The written part, at its place among the bits of the register.
abbrev shifted : Facet → ℕ → ℕ
shifted Facet.i8h new = new * 2 ^ 8
shifted f new = new

byte_fits : (a : ℕ) → a < 2 ^ 8 → a * 2 ^ 8 % 2 ^ 64 ≡ a * 2 ^ 8
byte_fits a h = omega arith

module _ {V : Type 0} (b : Builder V) (cfg : Config V) (m : Meaning b) where
  open b use {ty, const_int, bin, cast}

  merged :
      {f : Facet} {w : ℕ}
      → IsPart f w
      → (old new : ℕ) → old < 2 ^ 64
      → new < 2 ^ w
      → bit_or (shifted f new) (bit_and old (kept_mask b cfg f)) ≡ replace_part f old new
  merged low_byte old new p q =
      ap (bit_or new) (bit_and-high 8 56 old (0xffffffffffffff) p refl)
      ∙ bit_or-join 8 (old / 2 ^ 8) new q
  merged high_byte old new p q =
      ap (bit_or (new * 2 ^ 8)) (keep_high_byte old p)
      ∙ or_middle (old / 2 ^ 16) new (old % 2 ^ 8) q (omega arith)
  merged low_word old new p q =
      ap (bit_or new) (bit_and-high 16 48 old (0xffffffffffff) p refl)
      ∙ bit_or-join 16 (old / 2 ^ 16) new q

  pub widen_ty : {f : Facet} {w : ℕ} → IsPart f w → (v : V) → ty (widen b cfg f v) ≡ int 64
  unfolding facet_eq
  widen_ty low_byte v = m.cast_ty CastOp.zext v (int 64)
  widen_ty high_byte v = m.bin_ty BinaryOp.shl _ _ ∙ m.cast_ty CastOp.zext v (int 64)
  widen_ty low_word v = m.cast_ty CastOp.zext v (int 64)

  widen_den :
      {f : Facet} {w : ℕ}
      → IsPart f w
      → (v : V) → ty v ≡ int w
      → m.den (widen b cfg f v) ≡ shifted f (m.den v)
  unfolding facet_eq
  widen_den low_byte v t = m.zext_den v 8 64 t (omega arith)
  widen_den high_byte v t =
      let eight : m.den (const_int 64 8) ≡ 8 = m.const_int_den 64 8 in
      m.shl_den _ (const_int 64 8) 64 (m.cast_ty CastOp.zext v (int 64)) (omega (arith, eight))
      ∙ rw (eight, m.zext_den v 8 64 t (omega arith)) (byte_fits (m.den v) (m.den_lt v 8 t))
  widen_den low_word v t = m.zext_den v 16 64 t (omega arith)

  mask_lt : {f : Facet} {w : ℕ} → IsPart f w → kept_mask b cfg f % 2 ^ 64 ≡ kept_mask b cfg f
  mask_lt low_byte = refl
  mask_lt high_byte = refl
  mask_lt low_word = refl

  -- The value that is stored for the whole register.
  abbrev pub whole : Facet → V → V → V
  whole f old v =
      bin BinaryOp.or (widen b cfg f v) (bin BinaryOp.and old (const_int 64 (kept_mask b cfg f)))

  pub whole_den :
      {f : Facet} {w : ℕ}
      → IsPart f w
      → (old v : V) → ty v ≡ int w
      → ty old ≡ int 64
      → m.den (whole f old v) ≡ replace_part f (m.den old) (m.den v)
  whole_den {f} {w} p old v t e =
      m.or_den _ _ 64 (widen_ty p v) (m.bin_ty BinaryOp.and _ _ ∙ e)
      ∙ rw
          (
            widen_den p v t,
            m.and_den old (const_int 64 (kept_mask b cfg f)) 64 e
                (m.const_int_ty 64 (kept_mask b cfg f)),
            m.const_int_den 64 (kept_mask b cfg f),
            mask_lt p,
          )
          (merged p (m.den old) (m.den v) (m.den_lt old 64 e) (m.den_lt v w t))
