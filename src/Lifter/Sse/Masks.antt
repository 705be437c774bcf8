-- ===== src/Lifter/Sse/Masks.antt =====
-- The masks of the element shuffles of src/lifter-sse.cc: the numbers of the elements of two vectors
-- in a row that the result is made of.
use rellume.Prelude.{
  ℕ, ◌+◌, ◌-◌, ◌*◌, ◌/◌, ◌%◌, ◌^◌, ◌==◌, ltb, leb, if◌then◌else◌, ◌&&◌, Bool, Option, none, some,
  List, [], ◌∷◌, ◌++◌, map,
}
use rellume.Instr.{InstrType}
use rellume.RegFile.Access.{below}

-- LiftSseUnpck
unfoldable pub unpack_mask : InstrType → Option (List ℕ)
unpack_mask InstrType.sse_punpcklbw =
    some (0 ∷ 16 ∷ 1 ∷ 17 ∷ 2 ∷ 18 ∷ 3 ∷ 19 ∷ 4 ∷ 20 ∷ 5 ∷ 21 ∷ 6 ∷ 22 ∷ 7 ∷ 23 ∷ [])
unpack_mask InstrType.sse_punpckhbw =
    some (8 ∷ 24 ∷ 9 ∷ 25 ∷ 10 ∷ 26 ∷ 11 ∷ 27 ∷ 12 ∷ 28 ∷ 13 ∷ 29 ∷ 14 ∷ 30 ∷ 15 ∷ 31 ∷ [])
unpack_mask InstrType.sse_punpcklwd = some (0 ∷ 8 ∷ 1 ∷ 9 ∷ 2 ∷ 10 ∷ 3 ∷ 11 ∷ [])
unpack_mask InstrType.sse_punpckhwd = some (4 ∷ 12 ∷ 5 ∷ 13 ∷ 6 ∷ 14 ∷ 7 ∷ 15 ∷ [])
unpack_mask InstrType.sse_unpcklps = some (0 ∷ 4 ∷ 1 ∷ 5 ∷ [])
unpack_mask InstrType.sse_punpckldq = some (0 ∷ 4 ∷ 1 ∷ 5 ∷ [])
unpack_mask InstrType.sse_unpcklpd = some (0 ∷ 2 ∷ [])
unpack_mask InstrType.sse_punpcklqdq = some (0 ∷ 2 ∷ [])
unpack_mask InstrType.sse_unpckhps = some (2 ∷ 6 ∷ 3 ∷ 7 ∷ [])
unpack_mask InstrType.sse_punpckhdq = some (2 ∷ 6 ∷ 3 ∷ 7 ∷ [])
unpack_mask InstrType.sse_unpckhpd = some (1 ∷ 3 ∷ [])
unpack_mask InstrType.sse_punpckhqdq = some (1 ∷ 3 ∷ [])
unpack_mask t = none

-- LiftSseShufpd
unfoldable pub shufpd_mask : ℕ → List ℕ
shufpd_mask imm = (if imm % 2 == 1 then 1 else 0) ∷ (if imm / 2 % 2 == 1 then 3 else 2) ∷ []

-- (imm >> 2*i) & 3
abbrev pub selector : ℕ → ℕ → ℕ
selector imm i = imm / 2 ^ (2 * i) % 4

-- LiftSseShufps
unfoldable pub shufps_mask : ℕ → List ℕ
shufps_mask imm = map (λ i. (if ltb i 2 then 0 else 4) + selector imm i) (below 4)

-- LiftSsePshufd
unfoldable pub pshufd_mask : ℕ → List ℕ
pshufd_mask imm = map (selector imm) (below 4)

-- LiftSsePshufw
unfoldable pub pshufw_mask : ℕ → ℕ → List ℕ
pshufw_mask imm off =
    map (λ i. if leb off i && ltb i (off + 4) then off + selector imm i else i) (below 8)

-- LiftSseInsertps
unfoldable pub insertps_mask : ℕ → List ℕ
insertps_mask zmask = map (λ i. if zmask / 2 ^ i % 2 == 1 then 4 else i) (below 4)

-- LiftSsePshiftBytes, with the amount that is cut to 16.
abbrev pub byte_shift : ℕ → ℕ
byte_shift imm = if ltb (imm % 2 ^ 32) 16 then imm % 2 ^ 32 else 16

unfoldable pub shift_bytes_mask : Bool → ℕ → List ℕ
shift_bytes_mask right shift = map (λ i. i + (if right then shift else 16 - shift)) (below 16)

-- LiftSsePack
unfoldable pub pack_mask : ℕ → List ℕ
pack_mask src_elems = below src_elems ++ map (λ i. i + src_elems) (below src_elems)
