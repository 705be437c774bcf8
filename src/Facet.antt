-- ===== src/Facet.antt =====
-- src/facet.h, src/facet.inc and src/facet.cc: the facets, that is, the forms in which the lifter
-- reads and writes a register. `none` is a failed assertion.
pub mod Laws
use rellume.Prelude.{
  ℕ, zero, suc, ◌*◌, ◌/◌, ◌==◌, if◌then◌else◌, ◌&&◌, Bool, true, false, Option, none, some, List,
  [], ◌∷◌, get_or,
}

-- The rows of facet.inc, in order. `MAX` only counts them; `IVEC` is `i128`.
pub data Facet : Type 0 where
  i8 i16 i32 i64 i128 : Facet
  f32 f64 : Facet
  v1i8 v2i8 v4i8 v8i8 v16i8 : Facet
  v1i16 v2i16 v4i16 v8i16 : Facet
  v1i32 v2i32 v4i32 : Facet
  v1i64 v2i64 : Facet
  v1f32 v2f32 v4f32 : Facet
  v1f64 v2f64 : Facet
  ptr i8h : Facet
  zf sf pf cf of af df : Facet
  i : Facet
  vi8 vi16 vi32 vi64 vf32 vf64 : Facet

abbrev pub ivec : Facet
ivec = i128

-- The value of the enumerator.
unfoldable pub index : Facet → ℕ
index i8 = 0
index i16 = 1
index i32 = 2
index i64 = 3
index i128 = 4
index f32 = 5
index f64 = 6
index v1i8 = 7
index v2i8 = 8
index v4i8 = 9
index v8i8 = 10
index v16i8 = 11
index v1i16 = 12
index v2i16 = 13
index v4i16 = 14
index v8i16 = 15
index v1i32 = 16
index v2i32 = 17
index v4i32 = 18
index v1i64 = 19
index v2i64 = 20
index v1f32 = 21
index v2f32 = 22
index v4f32 = 23
index v1f64 = 24
index v2f64 = 25
index ptr = 26
index i8h = 27
index zf = 28
index sf = 29
index pf = 30
index cf = 31
index of = 32
index af = 33
index df = 34
index i = 35
index vi8 = 36
index vi16 = 37
index vi32 = 38
index vi64 = 39
index vf32 = 40
index vf64 = 41

unfoldable pub facet_eq : Facet → Facet → Bool
unfolding index
facet_eq f g = index f == index g

-- Facet::In
unfoldable pub in_bits : ℕ → Option Facet
in_bits size =
    if size == 8
    then some i8
    else if size == 16
    then some i16
    else if size == 32
    then some i32
    else if size == 64
    then some i64
    else if size == 128
    then some i128
    else none

-- A row VECTOR_FACET(fc, num, sc).
pub record VectorFacet : Type 0 where
  pub fc : Facet
  pub num : ℕ
  pub sc : Facet

abbrev row : Facet → ℕ → Facet → VectorFacet
row fc num sc = record { fc = fc; num = num; sc = sc }

unfoldable pub vector_facets : List VectorFacet
vector_facets =
    row v1i8 1 i8
    ∷ row v2i8 2 i8
    ∷ row v4i8 4 i8
    ∷ row v8i8 8 i8
    ∷ row v16i8 16 i8
    ∷ row v1i16 1 i16
    ∷ row v2i16 2 i16
    ∷ row v4i16 4 i16
    ∷ row v8i16 8 i16
    ∷ row v1i32 1 i32
    ∷ row v2i32 2 i32
    ∷ row v4i32 4 i32
    ∷ row v1i64 1 i64
    ∷ row v2i64 2 i64
    ∷ row v1f32 1 f32
    ∷ row v2f32 2 f32
    ∷ row v4f32 4 f32
    ∷ row v1f64 1 f64
    ∷ row v2f64 2 f64
    ∷ []

-- The chain of tests that the rows of facet.inc expand to.
unfoldable pub find_vector : ℕ → Facet → List VectorFacet → Option Facet
find_vector num_i scalar [] = none
find_vector num_i scalar (r ∷ rows) =
    if r.num == num_i && facet_eq r.sc scalar then some r.fc else find_vector num_i scalar rows

-- Facet::Vnt
unfoldable pub vnt : ℕ → Facet → Option Facet
vnt num_i scalar = find_vector num_i scalar vector_facets

-- Facet::Size
unfoldable pub size : Facet → Option ℕ
size i8 = some 8
size i16 = some 16
size i32 = some 32
size i64 = some 64
size i128 = some 128
size f32 = some 32
size f64 = some 64
size v1i8 = some (1 * 8)
size v2i8 = some (2 * 8)
size v4i8 = some (4 * 8)
size v8i8 = some (8 * 8)
size v16i8 = some (16 * 8)
size v1i16 = some (1 * 16)
size v2i16 = some (2 * 16)
size v4i16 = some (4 * 16)
size v8i16 = some (8 * 16)
size v1i32 = some (1 * 32)
size v2i32 = some (2 * 32)
size v4i32 = some (4 * 32)
size v1i64 = some (1 * 64)
size v2i64 = some (2 * 64)
size v1f32 = some (1 * 32)
size v2f32 = some (2 * 32)
size v4f32 = some (4 * 32)
size v1f64 = some (1 * 64)
size v2f64 = some (2 * 64)
size ptr = some 64
size i8h = some 8
size zf = some 1
size sf = some 1
size pf = some 1
size cf = some 1
size of = some 1
size af = some 1
size df = some 1
size i = none
size vi8 = none
size vi16 = none
size vi32 = none
size vi64 = none
size vf32 = none
size vf64 = none

-- Facet::Resolve
unfoldable pub resolve : Facet → ℕ → Option Facet
resolve i bits = in_bits bits
resolve vi8 bits = vnt (bits / 8) i8
resolve vi16 bits = vnt (bits / 16) i16
resolve vi32 bits = vnt (bits / 32) i32
resolve vi64 bits = vnt (bits / 64) i64
resolve vf32 bits = vnt (bits / 32) f32
resolve vf64 bits = vnt (bits / 64) f64
resolve f bits = some f
