-- ===== src/Decoder/Shape.antt =====
-- The list of blocks in Function::Decode of src/lldecoder.cc.
use mathlib.Core.Path.{subst}
use rellume.Prelude.{
  ℕ, zero, suc, ◌-◌, ◌^◌, ◌<◌, ◌≤◌, ◌≡◌, ◌==◌, Bool, false, Option, none, some, List, [], ◌∷◌, ◌++◌,
  length, length-append, set, ap, ◌∙◌, sym, arith, Bool-cases, Option-cases, inl, inr, ◌>>=◌,
}
use rellume.Instr.{Instr}
use rellume.Decoder.{DecodeStop, Place, Range, DecodeState, remap, split, close_block, visit}
use rellume.Decoder.Places.{Consistent}
use rellume.Decoder.Scan.{scan_correct}
use rellume.Decoder.Split.{InBlocks}
use rellume.Decoder.Visit.{close_block-InBlocks, addr_map-close_block}

-- Every block has an instruction, and all of its instructions are there.
abbrev pub WellFormed : ℕ → List Range → Type 0
WellFormed n [] = Unit {0}
WellFormed n (r ∷ rest) = (r.first < r.last) × (r.last ≤ n) × WellFormed n rest

WellFormed-append :
    (n : ℕ) (xs : List Range) (r : Range)
    → WellFormed n xs
    → r.first < r.last
    → r.last ≤ n
    → WellFormed n (xs ++ r ∷ [])
WellFormed-append n [] r w h k = (h, k, tt)
WellFormed-append n (x ∷ xs) r (a, c, w) h k = (a, c, WellFormed-append n xs r w h k)

WellFormed-set :
    (n : ℕ) (xs : List Range) (i : ℕ) (r : Range)
    → WellFormed n xs
    → r.first < r.last
    → r.last ≤ n
    → WellFormed n (set xs i r)
WellFormed-set n [] i r w h k = tt
WellFormed-set n (x ∷ xs) zero r (a, c, w) h k = (h, k, w)
WellFormed-set n (x ∷ xs) (suc i) r (a, c, w) h k = (a, c, WellFormed-set n xs i r w h k)

WellFormed-mono : (n m : ℕ) (xs : List Range) → n ≤ m → WellFormed n xs → WellFormed m xs
WellFormed-mono n m [] le w = tt
WellFormed-mono n m (x ∷ xs) le (a, c, w) = (a, omega arith, WellFormed-mono n m xs le w)

abbrev pub Shaped : DecodeState → Type 0
Shaped st = WellFormed (length st.insts) st.blocks

new_block : {m n : ℕ} → n ≤ m → (m == n) ≡ false → n < m
new_block h e = ground arith

close_block-Shaped :
    (start : ℕ) (st : DecodeState)
    → start ≤ length st.insts
    → Shaped st
    → Shaped (close_block start st)
unfolding close_block
close_block-Shaped start st le w = elim (Bool-cases (length st.insts == start)) [
  | inl e ↦ rw (e, close_block) w
  | inr e ↦
      rw (e, close_block)
        (WellFormed-append (length st.insts) st.blocks _ w (new_block le e) (omega arith))
]

abbrev pub ResultShaped : Option DecodeState → Type 0
ResultShaped none = Unit {0}
ResultShaped (some st) = Shaped st

later : {m n : ℕ} → m ≤ n → (m == n) ≡ false → m < n
later h e = ground arith

split-Shaped :
    (a : ℕ) (p : Place) (st : DecodeState)
    → InBlocks st
    → st.addr_map a ≡ some p
    → Shaped st
    → ResultShaped (split p st)
unfolding split
split-Shaped a p st b e w =
    let ib = b a p e in
    elim (Bool-cases (ib.range.first == p.index)) [
      | inl f ↦ rw (ib.found, f, split, ◌>>=◌) w
      | inr f ↦
          let n = length st.insts in
          let m = remap st.insts (length st.blocks) p.index (ib.range.last - p.index) st.addr_map in
          let cut =
            WellFormed-set n _ p.block (record { first = ib.range.first; last = p.index })
              (WellFormed-append n st.blocks (record { first = p.index; last = ib.range.last }) w
                ib.to ib.bound)
              (later ib.from f) (omega (arith, ib.to, ib.bound)) in
          elim (Option-cases m) [
            | inl g ↦ rw (ib.found, f, g, split, ◌>>=◌) tt
            | inr (_, g) ↦ rw (ib.found, f, g, split, ◌>>=◌) cut
          ]
    ]

module _ (memacc : ℕ → ℕ × List ℕ) (fd_decode : List ℕ → ℕ → Option Instr) (call_function : Bool)
    (stop : DecodeStop) where
  pub visit-Shaped :
      (fuel cur : ℕ) (st : DecodeState)
      → cur < 2 ^ 64
      → 2 ^ 64 < fuel
      → Consistent st
      → InBlocks st
      → Shaped st
      → ResultShaped (visit memacc fd_decode call_function stop fuel cur st)
  unfolding visit
  visit-Shaped fuel cur st h f c b w =
      let sc = scan_correct memacc fd_decode call_function stop fuel cur st h f c in
      let start = length st.insts in
      let closed = close_block start sc.after in
      let grown : length st.insts ≤ length sc.after.insts =
        omega (arith, ap length sc.added, length-append st.insts sc.extra) in
      let b' : InBlocks closed =
        close_block-InBlocks st sc.after sc.same_blocks grown sc.consistent b sc.fresh in
      let w' : Shaped closed = close_block-Shaped start sc.after grown (
        subst (λ xs. WellFormed (length sc.after.insts) xs) (sym sc.same_blocks)
          (WellFormed-mono _ _ st.blocks grown w)) in
      elim (Option-cases sc.joined) [
        | inl e ↦ rw (sc.returns, e, ◌>>=◌) w'
        | inr (p, e) ↦
            let entry : closed.addr_map sc.next ≡ some p =
              ap (λ (m : ℕ → Option Place). m sc.next) (addr_map-close_block start sc.after)
              ∙ sc.reached p e in
            rw (sc.returns, e, ◌>>=◌) (split-Shaped sc.next p closed b' entry w')
      ]
