-- ===== src/Lifter/Sse/MaskLaws.antt =====
-- The masks of src/lifter-sse.cc by what the instructions are documented to select.
use native.Mathlib.Nat.{mod-lt}
use mathlib.Core.Path.{subst}
use rellume.Prelude.{
  ℕ, ◌+◌, ◌-◌, ◌*◌, ◌/◌, ◌%◌, ◌^◌, ◌≤◌, ◌<◌, ◌≡◌, ◌==◌, ltb, leb, if◌then◌else◌, ◌&&◌, Bool, List,
  map, get_elem?, some, none, Option, refl, ap, ◌∙◌, sym, arith, Bool-cases, inl, inr, some_inj,
  lt-length_of_get_elem?,
}
use rellume.Facet.{Facet}
use rellume.Instr.{Instr, InstrType, op}
use rellume.Ir.{Builder, IrType, vector}
use rellume.Ir.Meaning.{Meaning}
use rellume.Ir.Meaning.Vector.{VectorMeaning}
use rellume.RegFile.Access.{below}
use rellume.Lifter.Monad.{LiftState, Config, ◌>>=◌}
use rellume.Lifter.Operand.{op_load, align_max}
use rellume.Lifter.Vector.{store_vec, op_load_aligned}
use rellume.Lifter.Sse.Masks.{
  unpack_mask, shufps_mask, pshufd_mask, pshufw_mask, insertps_mask, shift_bytes_mask, selector,
}
use rellume.Lifter.Sse.Shuffle.{lift_sse_unpck}
use rellume.Lifter.Sse.ShuffleLaws.{
  get_elem?-map-below, length-map-below, masked_left, masked_right,
}

-- The documented unpack instructions: the number of elements and the first element that is taken.
abbrev pub unpack_shape : InstrType → Option (ℕ × ℕ)
unpack_shape InstrType.sse_punpcklbw = some (16, 0)
unpack_shape InstrType.sse_punpckhbw = some (16, 8)
unpack_shape InstrType.sse_punpcklwd = some (8, 0)
unpack_shape InstrType.sse_punpckhwd = some (8, 4)
unpack_shape InstrType.sse_punpckldq = some (4, 0)
unpack_shape InstrType.sse_punpckhdq = some (4, 2)
unpack_shape InstrType.sse_punpcklqdq = some (2, 0)
unpack_shape InstrType.sse_punpckhqdq = some (2, 1)
unpack_shape InstrType.sse_unpcklps = some (4, 0)
unpack_shape InstrType.sse_unpckhps = some (4, 2)
unpack_shape InstrType.sse_unpcklpd = some (2, 0)
unpack_shape InstrType.sse_unpckhpd = some (2, 1)
unpack_shape t = none

-- Elements of two vectors of n in turn, from `first` on.
abbrev interleave_at : ℕ → ℕ → ℕ → ℕ
interleave_at n first i = first + i / 2 + (if i % 2 == 0 then 0 else n)

abbrev interleave : Option (ℕ × ℕ) → Option (List ℕ)
interleave none = none
interleave (some (n, first)) = some (map (interleave_at n first) (below n))

unpack_mask-interleave : (t : InstrType) → unpack_mask t ≡ interleave (unpack_shape t)
unfolding unpack_mask
unpack_mask-interleave InstrType.sse_punpcklbw = refl
unpack_mask-interleave InstrType.sse_punpckhbw = refl
unpack_mask-interleave InstrType.sse_punpcklwd = refl
unpack_mask-interleave InstrType.sse_punpckhwd = refl
unpack_mask-interleave InstrType.sse_punpckldq = refl
unpack_mask-interleave InstrType.sse_punpckhdq = refl
unpack_mask-interleave InstrType.sse_punpcklqdq = refl
unpack_mask-interleave InstrType.sse_punpckhqdq = refl
unpack_mask-interleave InstrType.sse_unpcklps = refl
unpack_mask-interleave InstrType.sse_unpckhps = refl
unpack_mask-interleave InstrType.sse_unpcklpd = refl
unpack_mask-interleave InstrType.sse_unpckhpd = refl
unpack_mask-interleave t = refl

abbrev Fits : Option (ℕ × ℕ) → Type 0
Fits none = Unit {0}
Fits (some (n, first)) = first + first ≤ n

-- In every documented instruction the elements that are taken exist.
unpack_shape-Fits : (t : InstrType) → Fits (unpack_shape t)
unpack_shape-Fits InstrType.sse_punpcklbw = omega arith
unpack_shape-Fits InstrType.sse_punpckhbw = omega arith
unpack_shape-Fits InstrType.sse_punpcklwd = omega arith
unpack_shape-Fits InstrType.sse_punpckhwd = omega arith
unpack_shape-Fits InstrType.sse_punpckldq = omega arith
unpack_shape-Fits InstrType.sse_punpckhdq = omega arith
unpack_shape-Fits InstrType.sse_punpcklqdq = omega arith
unpack_shape-Fits InstrType.sse_punpckhqdq = omega arith
unpack_shape-Fits InstrType.sse_unpcklps = omega arith
unpack_shape-Fits InstrType.sse_unpckhps = omega arith
unpack_shape-Fits InstrType.sse_unpcklpd = omega arith
unpack_shape-Fits InstrType.sse_unpckhpd = omega arith
unpack_shape-Fits t = tt

-- All entries of a mask of `n` positions are below a bound.
entries_lt :
    (f : ℕ → ℕ) (n bound : ℕ)
    → ((i : ℕ) → i < n → f i < bound)
    → (i k : ℕ) → get_elem? (map f (below n)) i ≡ some k
    → k < bound
entries_lt f n bound h i k e =
    let lt : i < n =
      omega (arith, lt-length_of_get_elem? (map f (below n)) i e, length-map-below f n) in
    let same : f i ≡ k = some_inj (sym (get_elem?-map-below f n i lt) ∙ e) in rw (sym same) (h i lt)

selector-lt : (imm i : ℕ) → selector imm i < 4
selector-lt imm i = mod-lt (imm / 2 ^ (2 * i)) (omega arith)

-- For every immediate, the masks of SHUFPS, PSHUFD, PSHUFLW, PSHUFHW and INSERTPS, and the ones of
-- PSLLDQ and PSRLDQ for an amount of at most 16, name only elements of the two vectors that are
-- shuffled, so that no element of the result is undefined.
pub masks-lt :
    (imm : ℕ)
    → ((i k : ℕ) → get_elem? (shufps_mask imm) i ≡ some k → k < 8)
      × ((i k : ℕ) → get_elem? (pshufd_mask imm) i ≡ some k → k < 4)
      × ((off i k : ℕ) → off ≤ 4 → get_elem? (pshufw_mask imm off) i ≡ some k → k < 8)
      × ((i k : ℕ) → get_elem? (insertps_mask imm) i ≡ some k → k < 8)
      × ((right : Bool) (shift i k : ℕ)
          → shift ≤ 16
          → get_elem? (shift_bytes_mask right shift) i ≡ some k
          → k < 32)
unfolding shufps_mask pshufd_mask pshufw_mask insertps_mask shift_bytes_mask
masks-lt imm = (
  entries_lt (λ i. (if ltb i 2 then 0 else 4) + selector imm i) 4 8
      (λ i lt. ground (arith, selector-lt imm i)),
  entries_lt (selector imm) 4 4 (λ i lt. selector-lt imm i),
  λ off i k le.
      entries_lt (λ j. if leb off j && ltb j (off + 4) then off + selector imm j else j) 8 8
        (λ j lt. ground (arith, selector-lt imm j)) i k,
  entries_lt (λ i. if imm / 2 ^ i % 2 == 1 then 4 else i) 4 8 (λ i lt. ground arith),
  λ right shift i k le.
      entries_lt (λ j. j + (if right then shift else 16 - shift)) 16 32 (λ j lt. ground arith) i k,
)

module _ {V : Type 0} (b : Builder V) (m : Meaning b) (vm : VectorMeaning b m)
    (cfg : Config V) where
  open b use {ty, shuffle}
  open vm use {lane}

  unpacked_lane :
      (x y : V) (t : IrType) (n first i : ℕ)
      → ty x ≡ vector t n
      → ty y ≡ vector t n
      → first + first ≤ n
      → i < n
      → lane (shuffle x y (map (interleave_at n first) (below n))) i
        ≡ (if i % 2 == 0 then lane x (first + i / 2) else lane y (first + i / 2))
  unpacked_lane x y t n first i tx ty_y fits lt = elim (Bool-cases (i % 2 == 0)) [
    | inl e ↦
        masked_left b m vm x y (interleave_at n first) t n n i (first + i / 2) tx ty_y lt
          (ground (arith, e)) (omega arith)
        ∙ rw e refl
    | inr e ↦
        masked_right b m vm x y (interleave_at n first) t n n i (first + i / 2) tx ty_y lt
          (ground (arith, e)) (ground (arith, e))
        ∙ rw e refl
  ]

  -- For a builder that obeys the laws of LLVM's shuffles, LiftSseUnpck of an instruction that is
  -- documented to unpack vectors of n elements from one element on, with operands that load as such
  -- vectors, stores the elements of the first and the second operand from there on in turn.
  pub lift_sse_unpck_correct :
      (inst : Instr) (f : Facet) (s s1 s2 : LiftState V) (x y : V) (t : IrType) (n first : ℕ)
      → unpack_shape inst.ty ≡ some (n, first)
      → op_load b cfg (op inst 0) f s ≡ some (x, s1)
      → op_load_aligned b cfg (op inst 1) f align_max s1 ≡ some (y, s2)
      → ty x ≡ vector t n
      → ty y ≡ vector t n
      → (v : V) × (lift_sse_unpck b cfg inst f s ≡ store_vec b cfg (op inst 0) v s2)
        × ((i : ℕ)
            → i < n
            → lane v i ≡ (if i % 2 == 0 then lane x (first + i / 2) else lane y (first + i / 2)))
  unfolding lift_sse_unpck
  lift_sse_unpck_correct inst f s s1 s2 x y t n first e e1 e2 tx ty_y =
      let fits : first + first ≤ n = subst (λ o. Fits o) e (unpack_shape-Fits inst.ty) in
      let mask : unpack_mask inst.ty ≡ some (map (interleave_at n first) (below n)) =
        unpack_mask-interleave inst.ty ∙ ap interleave e in
      (
        shuffle x y (map (interleave_at n first) (below n)),
        rw (e1, e2, mask, ◌>>=◌) refl,
        λ i lt. unpacked_lane x y t n first i tx ty_y fits lt,
      )
