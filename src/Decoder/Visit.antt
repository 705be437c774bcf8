-- ===== src/Decoder/Visit.antt =====
-- The body of the outer loop of Function::Decode in src/lldecoder.cc.
use rellume.Prelude.{
  ℕ, ◌^◌, ◌<◌, ◌≤◌, ◌≡◌, ◌==◌, Bool, true, Option, some, List, [], ◌∷◌, ◌++◌, length, get_elem?,
  get_elem?-concat, get_elem?-append_left, lt-length_of_get_elem?, length-append, refl, ap, ◌∙◌,
  sym, arith, Bool-cases, Option-cases, inl, inr, ◌>>=◌,
}
use rellume.Instr.{Instr}
use rellume.Decoder.{DecodeStop, Place, Range, DecodeState, close_block, visit}
use rellume.Decoder.Places.{Consistent}
use rellume.Decoder.Scan.{Fresh, scan_correct}
use rellume.Decoder.Split.{InBlocks, split_correct}

pub close_block-Consistent :
    (start : ℕ) (st : DecodeState) → Consistent st → Consistent (close_block start st)
unfolding close_block
close_block-Consistent start st c = elim (Bool-cases (length st.insts == start)) [
  | inl e ↦ rw (e, close_block) c
  | inr e ↦ rw (e, close_block) (record { at = c.at; back = c.back })
]

no_new : {i m n : ℕ} → (m == n) ≡ true → n ≤ i → i < m → ⊥
no_new e l u = ground arith

index-lt :
    (st : DecodeState) (a : ℕ) (q : Place)
    → Consistent st
    → st.addr_map a ≡ some q
    → q.index < length st.insts
index-lt st a q c e =
    let (inst, there, _) = c.at a q e in lt-length_of_get_elem? st.insts q.index there

module _ (st after : DecodeState) (blocks : after.blocks ≡ st.blocks)
    (grown : length st.insts ≤ length after.insts) (c : Consistent after) (b : InBlocks st)
    (fresh : (a : ℕ) (q : Place) → after.addr_map a ≡ some q → Fresh st a q) where
  old_block :
      (q : Place) (r : Range)
      → get_elem? st.blocks q.block ≡ some r
      → get_elem? after.blocks q.block ≡ some r
  old_block q r e = ap (λ (xs : List Range). get_elem? xs q.block) blocks ∙ e

  places_kept : (length after.insts == length st.insts) ≡ true → InBlocks after
  places_kept e a q f = elim (fresh a q f) [
    | inr (_, l) ↦ absurd (no_new e l (index-lt after a q c f))
    | inl old ↦
        let ib = b a q old in
        record {
          range = ib.range;
          found = old_block q ib.range ib.found;
          from = ib.from;
          to = ib.to;
          bound = omega (arith, grown, ib.bound);
        }
  ]

  places_closed : InBlocks (record after {
    blocks = after.blocks ++ record { first = length st.insts; last = length after.insts } ∷ [];
  })
  places_closed a q f = elim (fresh a q f) [
    | inr (blk, l) ↦ record {
      range = record { first = length st.insts; last = length after.insts };
      found =
          ap
            (get_elem?
              (after.blocks ++ record { first = length st.insts; last = length after.insts } ∷ []))
            (blk ∙ ap length (sym blocks))
          ∙ get_elem?-concat after.blocks _;
      from = l;
      to = index-lt after a q c f;
      bound = omega arith;
    }
    | inl old ↦
        let ib = b a q old in
        let found = old_block q ib.range ib.found in
        record {
          range = ib.range;
          found =
              get_elem?-append_left after.blocks _ q.block
                (lt-length_of_get_elem? after.blocks q.block found)
              ∙ found;
          from = ib.from;
          to = ib.to;
          bound = omega (arith, grown, ib.bound);
        }
  ]

-- The new block has the places of the new instructions.
pub close_block-InBlocks :
    (st after : DecodeState)
    → after.blocks ≡ st.blocks
    → length st.insts ≤ length after.insts
    → Consistent after
    → InBlocks st
    → ((a : ℕ) (q : Place) → after.addr_map a ≡ some q → Fresh st a q)
    → InBlocks (close_block (length st.insts) after)
unfolding close_block
close_block-InBlocks st after blocks grown c b fresh =
    elim (Bool-cases (length after.insts == length st.insts)) [
      | inl e ↦ rw (e, close_block) (places_kept st after blocks grown c b fresh e)
      | inr e ↦ rw (e, close_block) (places_closed st after blocks grown c b fresh)
    ]

pub addr_map-close_block :
    (start : ℕ) (st : DecodeState) → (close_block start st).addr_map ≡ st.addr_map
unfolding close_block
addr_map-close_block start st = elim (Bool-cases (length st.insts == start)) [
  | inl e ↦ rw (e, close_block) refl
  | inr e ↦ rw (e, close_block) refl
]

-- A turn of the outer loop that ends well, in a state whose map is consistent and leads into the
-- blocks.
pub record Visited (result : Option DecodeState) : Type 0 where
  pub after : DecodeState
  pub returns : result ≡ some after
  pub consistent : Consistent after
  pub in_blocks : InBlocks after

module _ (memacc : ℕ → ℕ × List ℕ) (fd_decode : List ℕ → ℕ → Option Instr) (call_function : Bool)
    (stop : DecodeStop) where
  -- From a state whose address map is consistent and leads into the blocks, a turn of the outer loop
  -- at an address of 64 bits ends well, whatever the memory holds, if the inner loop may take more
  -- than 2 ^ 64 turns: no access is out of bounds, and afterwards the map is consistent again and
  -- leads each address into a block that has its instruction.
  pub visit_correct :
      (fuel cur : ℕ) (st : DecodeState)
      → cur < 2 ^ 64
      → 2 ^ 64 < fuel
      → Consistent st
      → InBlocks st
      → Visited (visit memacc fd_decode call_function stop fuel cur st)
  unfolding visit
  visit_correct fuel cur st h f c b =
      let sc = scan_correct memacc fd_decode call_function stop fuel cur st h f c in
      let start = length st.insts in
      let closed = close_block start sc.after in
      let grown : length st.insts ≤ length sc.after.insts =
        omega (arith, ap length sc.added, length-append st.insts sc.extra) in
      let c' : Consistent closed = close_block-Consistent start sc.after sc.consistent in
      let b' : InBlocks closed =
        close_block-InBlocks st sc.after sc.same_blocks grown sc.consistent b sc.fresh in
      elim (Option-cases sc.joined) [
        | inl e ↦ record {
          after = closed;
          returns = rw (sc.returns, e, ◌>>=◌) refl;
          consistent = c';
          in_blocks = b';
        }
        | inr (p, e) ↦
            let entry : closed.addr_map sc.next ≡ some p =
              ap (λ (m : ℕ → Option Place). m sc.next) (addr_map-close_block start sc.after)
              ∙ sc.reached p e in
            let cut = split_correct sc.next p closed c' b' entry in
            record {
              after = cut.after;
              returns = rw (sc.returns, e, ◌>>=◌) cut.returns;
              consistent = cut.consistent;
              in_blocks = cut.in_blocks;
            }
      ]
