-- ===== src/Facet/Laws.antt =====
-- The tables of src/facet.inc: the numbering, the sizes, and the resolution of the pseudo
-- facets.
use rellume.Prelude.{
  ℕ, ◌*◌, ◌/◌, ◌≡◌, ◌≢◌, refl, ◌==◌, ==_refl, ==_iff, some_inj, ◌⊎◌, inl, inr, ◌↔◌, true, Option,
  none, some, List, [], ◌∷◌, get_or, arith, ap, ◌∙◌, sym, Bool-cases,
}
use mathlib.Core.Path.{subst}
use rellume.Facet.{
  Facet, VectorFacet, index, facet_eq, in_bits, find_vector, vector_facets, vnt, size, resolve,
}

abbrev all_facets : List Facet
all_facets =
    Facet.i8 ∷ Facet.i16 ∷ Facet.i32 ∷ Facet.i64 ∷ Facet.i128 ∷ Facet.f32 ∷ Facet.f64 ∷ Facet.v1i8
    ∷ Facet.v2i8 ∷ Facet.v4i8 ∷ Facet.v8i8 ∷ Facet.v16i8 ∷ Facet.v1i16 ∷ Facet.v2i16 ∷ Facet.v4i16
    ∷ Facet.v8i16 ∷ Facet.v1i32 ∷ Facet.v2i32 ∷ Facet.v4i32 ∷ Facet.v1i64 ∷ Facet.v2i64
    ∷ Facet.v1f32 ∷ Facet.v2f32 ∷ Facet.v4f32 ∷ Facet.v1f64 ∷ Facet.v2f64 ∷ Facet.ptr ∷ Facet.i8h
    ∷ Facet.zf ∷ Facet.sf ∷ Facet.pf ∷ Facet.cf ∷ Facet.of ∷ Facet.af ∷ Facet.df ∷ Facet.i
    ∷ Facet.vi8 ∷ Facet.vi16 ∷ Facet.vi32 ∷ Facet.vi64 ∷ Facet.vf32 ∷ Facet.vf64 ∷ []

abbrev of_index : ℕ → Facet
of_index n = get_or all_facets n Facet.i8

of_index-index : (f : Facet) → of_index (index f) ≡ f
unfolding index
of_index-index Facet.i8 = refl
of_index-index Facet.i16 = refl
of_index-index Facet.i32 = refl
of_index-index Facet.i64 = refl
of_index-index Facet.i128 = refl
of_index-index Facet.f32 = refl
of_index-index Facet.f64 = refl
of_index-index Facet.v1i8 = refl
of_index-index Facet.v2i8 = refl
of_index-index Facet.v4i8 = refl
of_index-index Facet.v8i8 = refl
of_index-index Facet.v16i8 = refl
of_index-index Facet.v1i16 = refl
of_index-index Facet.v2i16 = refl
of_index-index Facet.v4i16 = refl
of_index-index Facet.v8i16 = refl
of_index-index Facet.v1i32 = refl
of_index-index Facet.v2i32 = refl
of_index-index Facet.v4i32 = refl
of_index-index Facet.v1i64 = refl
of_index-index Facet.v2i64 = refl
of_index-index Facet.v1f32 = refl
of_index-index Facet.v2f32 = refl
of_index-index Facet.v4f32 = refl
of_index-index Facet.v1f64 = refl
of_index-index Facet.v2f64 = refl
of_index-index Facet.ptr = refl
of_index-index Facet.i8h = refl
of_index-index Facet.zf = refl
of_index-index Facet.sf = refl
of_index-index Facet.pf = refl
of_index-index Facet.cf = refl
of_index-index Facet.of = refl
of_index-index Facet.af = refl
of_index-index Facet.df = refl
of_index-index Facet.i = refl
of_index-index Facet.vi8 = refl
of_index-index Facet.vi16 = refl
of_index-index Facet.vi32 = refl
of_index-index Facet.vi64 = refl
of_index-index Facet.vf32 = refl
of_index-index Facet.vf64 = refl

-- Two facets are the same exactly if their enumerators have the same value.
pub facet_eq_iff : (f g : Facet) → (facet_eq f g ≡ true) ↔ (f ≡ g)
unfolding facet_eq
facet_eq_iff f g = (
  λ h.
      let same : index f ≡ index g = ground arith in
      sym (of_index-index f) ∙ ap of_index same ∙ of_index-index g,
  λ e. rw e (==_refl (index g)),
)

-- The facet for an integer width has that width.
pub size-in_bits : (n : ℕ) (f : Facet) → in_bits n ≡ some f → size f ≡ some n
unfolding in_bits size
size-in_bits n f h = ground arith

-- The width of `n` elements.
abbrev times : ℕ → Option ℕ → Option ℕ
times n none = none
times n (some k) = some (n * k)

-- What holds of every row of a table.
abbrev All : (VectorFacet → Type 0) → List VectorFacet → Type 0
All Q [] = Unit {0}
All Q (r ∷ rows) = Q r × All Q rows

-- A hit is a row with the number and the element that were asked for.
find_vector_row :
    (Q : VectorFacet → Type 0) (n : ℕ) (s : Facet) (rows : List VectorFacet) (f : Facet)
    → All Q rows
    → find_vector n s rows ≡ some f
    → (r : VectorFacet) × (r.fc ≡ f) × (r.num ≡ n) × (r.sc ≡ s) × Q r
unfolding find_vector
find_vector_row Q n s [] f all h = cc
find_vector_row Q n s (r ∷ rows) f all h = elim (Bool-cases (r.num == n)) [
  | inl number ↦ elim (Bool-cases (facet_eq r.sc s)) [
    | inl element ↦ (
      r,
      some_inj (rw (number, element) at h),
      (==_iff r.num n).0 number,
      (facet_eq_iff r.sc s).0 element,
      all.0,
    )
    | inr other ↦ find_vector_row Q n s rows f all.1 (rw (number, other) at h)
  ]
  | inr other ↦ find_vector_row Q n s rows f all.1 (rw other at h)
]

abbrev IsSized : VectorFacet → Type 0
IsSized r = size r.fc ≡ times r.num (size r.sc)

vector_facets-IsSized : All IsSized vector_facets
unfolding vector_facets size
vector_facets-IsSized = ground arith

-- A vector facet is as wide as its elements together.
pub size-vnt : (n : ℕ) (s f : Facet) → vnt n s ≡ some f → size f ≡ times n (size s)
unfolding vnt
size-vnt n s f h =
    let (r, hit, number, element, sized) =
      find_vector_row IsSized n s vector_facets f vector_facets-IsSized h in
    cc

-- Resolving at 128 bits, the width of a vector register, succeeds for every facet, and gives a
-- facet with a width; a pseudo facet is resolved to one of 128 bits.
pub resolve_register :
    (f : Facet)
    → (g : Facet) × (n : ℕ) × (resolve f 128 ≡ some g)
      × (size g ≡ some n)
      × ((g ≡ f) ⊎ ((size f ≡ none) × (n ≡ 128)))
unfolding resolve size vnt in_bits find_vector vector_facets facet_eq
resolve_register Facet.i8 = (Facet.i8, 8, refl, refl, inl refl)
resolve_register Facet.i16 = (Facet.i16, 16, refl, refl, inl refl)
resolve_register Facet.i32 = (Facet.i32, 32, refl, refl, inl refl)
resolve_register Facet.i64 = (Facet.i64, 64, refl, refl, inl refl)
resolve_register Facet.i128 = (Facet.i128, 128, refl, refl, inl refl)
resolve_register Facet.f32 = (Facet.f32, 32, refl, refl, inl refl)
resolve_register Facet.f64 = (Facet.f64, 64, refl, refl, inl refl)
resolve_register Facet.v1i8 = (Facet.v1i8, 8, refl, refl, inl refl)
resolve_register Facet.v2i8 = (Facet.v2i8, 16, refl, refl, inl refl)
resolve_register Facet.v4i8 = (Facet.v4i8, 32, refl, refl, inl refl)
resolve_register Facet.v8i8 = (Facet.v8i8, 64, refl, refl, inl refl)
resolve_register Facet.v16i8 = (Facet.v16i8, 128, refl, refl, inl refl)
resolve_register Facet.v1i16 = (Facet.v1i16, 16, refl, refl, inl refl)
resolve_register Facet.v2i16 = (Facet.v2i16, 32, refl, refl, inl refl)
resolve_register Facet.v4i16 = (Facet.v4i16, 64, refl, refl, inl refl)
resolve_register Facet.v8i16 = (Facet.v8i16, 128, refl, refl, inl refl)
resolve_register Facet.v1i32 = (Facet.v1i32, 32, refl, refl, inl refl)
resolve_register Facet.v2i32 = (Facet.v2i32, 64, refl, refl, inl refl)
resolve_register Facet.v4i32 = (Facet.v4i32, 128, refl, refl, inl refl)
resolve_register Facet.v1i64 = (Facet.v1i64, 64, refl, refl, inl refl)
resolve_register Facet.v2i64 = (Facet.v2i64, 128, refl, refl, inl refl)
resolve_register Facet.v1f32 = (Facet.v1f32, 32, refl, refl, inl refl)
resolve_register Facet.v2f32 = (Facet.v2f32, 64, refl, refl, inl refl)
resolve_register Facet.v4f32 = (Facet.v4f32, 128, refl, refl, inl refl)
resolve_register Facet.v1f64 = (Facet.v1f64, 64, refl, refl, inl refl)
resolve_register Facet.v2f64 = (Facet.v2f64, 128, refl, refl, inl refl)
resolve_register Facet.ptr = (Facet.ptr, 64, refl, refl, inl refl)
resolve_register Facet.i8h = (Facet.i8h, 8, refl, refl, inl refl)
resolve_register Facet.zf = (Facet.zf, 1, refl, refl, inl refl)
resolve_register Facet.sf = (Facet.sf, 1, refl, refl, inl refl)
resolve_register Facet.pf = (Facet.pf, 1, refl, refl, inl refl)
resolve_register Facet.cf = (Facet.cf, 1, refl, refl, inl refl)
resolve_register Facet.of = (Facet.of, 1, refl, refl, inl refl)
resolve_register Facet.af = (Facet.af, 1, refl, refl, inl refl)
resolve_register Facet.df = (Facet.df, 1, refl, refl, inl refl)
resolve_register Facet.i = (Facet.i128, 128, refl, refl, inr (refl, refl))
resolve_register Facet.vi8 = (Facet.v16i8, 128, refl, refl, inr (refl, refl))
resolve_register Facet.vi16 = (Facet.v8i16, 128, refl, refl, inr (refl, refl))
resolve_register Facet.vi32 = (Facet.v4i32, 128, refl, refl, inr (refl, refl))
resolve_register Facet.vi64 = (Facet.v2i64, 128, refl, refl, inr (refl, refl))
resolve_register Facet.vf32 = (Facet.v4f32, 128, refl, refl, inr (refl, refl))
resolve_register Facet.vf64 = (Facet.v2f64, 128, refl, refl, inr (refl, refl))

-- A facet that has a width and is no pseudo facet.
abbrev pub IsConcrete : Facet → Type 0
IsConcrete g = ((m : ℕ) → resolve g m ≡ some g) × (size g ≢ none)

vector_facets-IsConcrete : All (λ r. IsConcrete r.fc) vector_facets
unfolding vector_facets size resolve
vector_facets-IsConcrete = grind arith

vnt-IsConcrete : (n : ℕ) (s g : Facet) → vnt n s ≡ some g → IsConcrete g
unfolding vnt
vnt-IsConcrete n s g h =
    let (r, hit, number, element, concrete) =
      find_vector_row (λ r. IsConcrete r.fc) n s vector_facets g vector_facets-IsConcrete h in
    subst IsConcrete hit concrete

in_bits-IsConcrete : (n : ℕ) (g : Facet) → in_bits n ≡ some g → IsConcrete g
unfolding in_bits size resolve
in_bits-IsConcrete n g h = (λ m. ground arith, λ e. ground arith)

-- A facet that was resolved, at any width, has a size, and resolves to itself at every width.
pub resolve-IsConcrete : (f g : Facet) (n : ℕ) → resolve f n ≡ some g → IsConcrete g
unfolding resolve
resolve-IsConcrete Facet.vi8 g n h = vnt-IsConcrete (n / 8) Facet.i8 g h
resolve-IsConcrete Facet.vi16 g n h = vnt-IsConcrete (n / 16) Facet.i16 g h
resolve-IsConcrete Facet.vi32 g n h = vnt-IsConcrete (n / 32) Facet.i32 g h
resolve-IsConcrete Facet.vi64 g n h = vnt-IsConcrete (n / 64) Facet.i64 g h
resolve-IsConcrete Facet.vf32 g n h = vnt-IsConcrete (n / 32) Facet.f32 g h
resolve-IsConcrete Facet.vf64 g n h = vnt-IsConcrete (n / 64) Facet.f64 g h
resolve-IsConcrete Facet.i g n h = in_bits-IsConcrete n g h
resolve-IsConcrete f g n h =
    subst IsConcrete (some_inj h) (unfold size resolve in (λ m. refl, λ e. cc))
