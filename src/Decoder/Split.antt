-- ===== src/Decoder/Split.antt =====
-- The cut of a block in Function::Decode of src/lldecoder.cc.
use mathlib.Core.Path.{subst}
use rellume.Prelude.{
  ℕ, ◌+◌, ◌-◌, ◌<◌, ◌≤◌, ◌≡◌, ◌==◌, ==_iff, false, Option, some, some_inj, List, [], ◌∷◌, ◌++◌,
  length, get_elem?, get_elem?-set_self, get_elem?-set_ne, get_elem?-concat, get_elem?-append_left,
  lt-length_of_get_elem?, length-append, ◌≢◌, set, refl, ap, ◌∙◌, sym, arith, Bool-cases, inl, inr,
  ◌>>=◌,
}
use rellume.Decoder.{Place, Range, DecodeState, split}
use rellume.Decoder.Places.{Consistent}
use rellume.Decoder.Remap.{place, Remapped, remap_lem, apart}

below_ne : {m n : ℕ} → m < n → m ≢ n
below_ne h e = omega arith

inside : {i j l : ℕ} → j < l → i < j + (l - j) → i < l
inside h u = omega arith

outside : {i j l : ℕ} → j < l → j + (l - j) ≤ i → i < l → ⊥
outside h g u = omega arith

up_to : {j l n : ℕ} → j < l → l ≤ n → j ≤ n
up_to h b = omega arith

-- A place is in a block that is in the list of instructions.
pub record InBlock (st : DecodeState) (q : Place) : Type 0 where
  pub range : Range
  pub found : get_elem? st.blocks q.block ≡ some range
  pub from : range.first ≤ q.index
  pub to : q.index < range.last
  pub bound : range.last ≤ length st.insts

abbrev pub InBlocks : DecodeState → Type 0
InBlocks st = (a : ℕ) (q : Place) → st.addr_map a ≡ some q → InBlock st q

-- A block begins at an address.
pub record Begins (st : DecodeState) (a : ℕ) : Type 0 where
  pub at : Place
  pub found : st.addr_map a ≡ some at
  pub range : Range
  pub block : get_elem? st.blocks at.block ≡ some range
  pub first : range.first ≡ at.index

abbrev cut_blocks : List Range → ℕ → ℕ → Range → List Range
cut_blocks blocks blk idx other =
    set (blocks ++ record { first = idx; last = other.last } ∷ []) blk
      (record { first = other.first; last = idx })

abbrev after_split : Place → Range → (ℕ → Option Place) → DecodeState → DecodeState
after_split p other m st = record st {
  blocks = cut_blocks st.blocks p.block p.index other;
  addr_map = m;
}

below_length : (xs : List Range) (x : Range) (i : ℕ) → i < length xs → i < length (xs ++ x ∷ [])
below_length xs x i h = omega (arith, length-append xs (x ∷ []))

module _ (p : Place) (other : Range) (st : DecodeState) (c : Consistent st) (b : InBlocks st)
    (found : get_elem? st.blocks p.block ≡ some other) (from : other.first < p.index)
    (to : p.index < other.last) (bound : other.last ≤ length st.insts) where
  in_list : p.block < length st.blocks
  in_list = lt-length_of_get_elem? st.blocks p.block found

  cut_head :
      get_elem? (cut_blocks st.blocks p.block p.index other) p.block
      ≡ some (record { first = other.first; last = p.index })
  cut_head = get_elem?-set_self _ p.block _ (below_length st.blocks _ p.block in_list)

  cut_tail :
      get_elem? (cut_blocks st.blocks p.block p.index other) (length st.blocks)
      ≡ some (record { first = p.index; last = other.last })
  cut_tail =
      get_elem?-set_ne _ p.block (length st.blocks) _ (below_ne in_list)
      ∙ get_elem?-concat st.blocks _

  cut_else :
      (i : ℕ) (r : Range)
      → (p.block == i) ≡ false
      → get_elem? st.blocks i ≡ some r
      → get_elem? (cut_blocks st.blocks p.block p.index other) i ≡ some r
  cut_else i r e f =
      get_elem?-set_ne _ p.block i _ (apart e)
      ∙ get_elem?-append_left st.blocks _ i (lt-length_of_get_elem? st.blocks i f)
      ∙ f

  module _ (result : Option (ℕ → Option Place))
      (r : Remapped result (length st.blocks) p.index (other.last - p.index) st) where
    InBlocks-after_split : InBlocks (after_split p other r.m st)
    InBlocks-after_split a q e = elim (r.entries a q e) [
      | inr (blk, l, u) ↦ record {
        range = record { first = p.index; last = other.last };
        found = ap (get_elem? (cut_blocks st.blocks p.block p.index other)) blk ∙ cut_tail;
        from = l;
        to = inside to u;
        bound = bound;
      }
      | inl (old, range) ↦
          let ib = b a q old in
          elim (Bool-cases (p.block == q.block)) [
            | inl same ↦
                let number : p.block ≡ q.block = (==_iff p.block q.block).0 same in
                let whole : ib.range ≡ other =
                  some_inj (sym ib.found ∙ ap (get_elem? st.blocks) (sym number) ∙ found) in
                let below : q.index < other.last =
                  subst (λ (x : Range). q.index < x.last) whole ib.to in
                record {
                  range = record { first = other.first; last = p.index };
                  found =
                      ap (get_elem? (cut_blocks st.blocks p.block p.index other)) (sym number)
                      ∙ cut_head;
                  from = subst (λ (x : Range). x.first ≤ q.index) whole ib.from;
                  to = elim range [ inl l ↦ l | inr g ↦ absurd (outside to g below) ];
                  bound = up_to to bound;
                }
            | inr differ ↦ record {
              range = ib.range;
              found = cut_else q.block ib.range differ ib.found;
              from = ib.from;
              to = ib.to;
              bound = ib.bound;
            }
          ]
    ]

    Begins-after_split : (a : ℕ) → st.addr_map a ≡ some p → Begins (after_split p other r.m st) a
    Begins-after_split a e =
        let (inst, there, here) = c.at a p e in
        let (blk, f) = r.consistent.back p.index inst there in
        let entry : r.m a ≡ some (place blk p.index) = ap r.m (sym here) ∙ f in
        elim (r.entries a (place blk p.index) entry) [
          | inl (_, range) ↦
              absurd (elim range [ inl l ↦ below_ne l refl | inr g ↦ outside to g to ])
          | inr (is_new, _, _) ↦ record {
            at = place blk p.index;
            found = entry;
            range = record { first = p.index; last = other.last };
            block = ap (get_elem? (cut_blocks st.blocks p.block p.index other)) is_new ∙ cut_tail;
            first = refl;
          }
        ]

below_of_apart : {m n : ℕ} → m ≤ n → (m == n) ≡ false → m < n
below_of_apart h e = ground arith

fits : {j l n : ℕ} → j < l → l ≤ n → j + (l - j) ≤ n
fits h b = omega arith

-- What is left after a block was cut at an address.
pub record SplitAt (result : Option DecodeState) (st : DecodeState) (a : ℕ) : Type 0 where
  pub after : DecodeState
  pub returns : result ≡ some after
  pub consistent : Consistent after
  pub in_blocks : InBlocks after
  pub begins : Begins after a
  pub same_insts : after.insts ≡ st.insts
  pub same_queue : after.addr_queue ≡ st.addr_queue

-- In a state whose address map is consistent and leads into the blocks, a cut at the entry of an
-- address succeeds: no access is out of bounds, a block begins at the address afterwards, the map
-- is consistent and leads into the blocks again, and the instructions and the queue are the same.
pub split_correct :
    (a : ℕ) (p : Place) (st : DecodeState)
    → Consistent st
    → InBlocks st
    → st.addr_map a ≡ some p
    → SplitAt (split p st) st a
unfolding split
split_correct a p st c b e =
    let ib = b a p e in
    elim (Bool-cases (ib.range.first == p.index)) [
      | inl same ↦ record {
        after = st;
        returns = rw (ib.found, same, ◌>>=◌) refl;
        consistent = c;
        in_blocks = b;
        begins = record {
          at = p;
          found = e;
          range = ib.range;
          block = ib.found;
          first = (==_iff ib.range.first p.index).0 same;
        };
        same_insts = refl;
        same_queue = refl;
      }
      | inr differ ↦
          let from : ib.range.first < p.index = below_of_apart ib.from differ in
          let r =
            remap_lem (length st.blocks) (ib.range.last - p.index) p.index st c
              (fits ib.to ib.bound) in
          record {
            after = after_split p ib.range r.m st;
            returns = rw (ib.found, differ, r.returns, ◌>>=◌) refl;
            consistent = record { at = r.consistent.at; back = r.consistent.back };
            in_blocks = InBlocks-after_split p ib.range st c b ib.found from ib.to ib.bound _ r;
            begins = Begins-after_split p ib.range st c b ib.found from ib.to ib.bound _ r a e;
            same_insts = refl;
            same_queue = refl;
          }
    ]
