-- ===== src/Decoder/Total.antt =====
-- The outer loop of Function::Decode in src/lldecoder.cc.
use mathlib.Core.Path.{subst}
use rellume.Prelude.{
  ℕ, zero, suc, ◌+◌, ◌-◌, ◌*◌, ◌^◌, ◌<◌, ◌≤◌, ◌≡◌, ◌==◌, Bool, Option, none, some, List, [], ◌∷◌,
  length, get_elem?, refl, ap, arith, Bool-cases, Option-cases, List-cases, inl, inr, ◌>>=◌,
}
use rellume.Instr.{Instr}
use rellume.Decoder.{
  DecodeStop, Place, DecodeState, update, remap, split, close_block, visit, decode_loop, scan,
}
use rellume.Decoder.Lifting.{initial}
use rellume.Decoder.Places.{Consistent}
use rellume.Decoder.Split.{InBlocks}
use rellume.Decoder.Visit.{visit_correct}
use rellume.Decoder.Unmapped.{unmapped, unmapped-le, unmapped-update_le}
use rellume.Decoder.Shape.{Shaped, ResultShaped, visit-Shaped}
use rellume.Decoder.Queue.{InRange, work, Less, ScanLess, scan_less}

abbrev MapLess : ℕ → (ℕ → Option Place) → Option (ℕ → Option Place) → Type 0
MapLess size m none = Unit {0}
MapLess size m (some m') = unmapped size m' ≤ unmapped size m

map_trans :
    (size : ℕ) (m1 m : ℕ → Option Place) (r : Option (ℕ → Option Place))
    → unmapped size m1 ≤ unmapped size m
    → MapLess size m1 r
    → MapLess size m r
map_trans size m1 m none w l = tt
map_trans size m1 m (some m') w l = omega (arith, w, l)

remap_less :
    (size : ℕ) (insts : List Instr) (new_block j n : ℕ) (m : ℕ → Option Place)
    → MapLess size m (remap insts new_block j n m)
unfolding remap
remap_less size insts new_block j zero m = omega arith
remap_less size insts new_block j (suc n) m = elim (Option-cases (get_elem? insts j)) [
  | inl e ↦ rw (e, remap, ◌>>=◌) tt
  | inr (inst, e) ↦
      let m1 = update m inst.address (record { block = new_block; index = j }) in
      rw (e, remap, ◌>>=◌)
        (map_trans size m1 m (remap insts new_block (suc j) n m1)
          (unmapped-update_le size inst.address (record { block = new_block; index = j }) m)
          (remap_less size insts new_block (suc j) n m1))
]

abbrev StateLess : ℕ → DecodeState → Option DecodeState → Type 0
StateLess size st none = Unit {0}
StateLess size st (some st') = Less size st' st

split_less :
    (size : ℕ) (p : Place) (st : DecodeState)
    → InRange st.addr_queue
    → StateLess size st (split p st)
unfolding split
split_less size p st q = elim (Option-cases (get_elem? st.blocks p.block)) [
  | inl e ↦ rw (e, split, ◌>>=◌) tt
  | inr (other, e) ↦ elim (Bool-cases (other.first == p.index)) [
    | inl f ↦ rw (e, f, split, ◌>>=◌) (q, omega arith)
    | inr f ↦
        let less =
          remap_less size st.insts (length st.blocks) p.index (other.last - p.index) st.addr_map in
        elim (Option-cases
          (remap st.insts (length st.blocks) p.index (other.last - p.index) st.addr_map)) [
            | inl g ↦ rw (e, f, g, split, ◌>>=◌) tt
            | inr (m, g) ↦
                let fewer : unmapped size m ≤ unmapped size st.addr_map =
                  subst (λ r. MapLess size st.addr_map r) g less in
                rw (e, f, g, split, ◌>>=◌) (q, omega (arith, fewer))
          ]
  ]
]

close_block-Less :
    (size start : ℕ) (st : DecodeState)
    → InRange st.addr_queue
    → Less size (close_block start st) st
unfolding close_block
close_block-Less size start st q = elim (Bool-cases (length st.insts == start)) [
  | inl e ↦ rw (e, close_block) (q, omega arith)
  | inr e ↦ rw (e, close_block) (q, omega arith)
]

state_trans :
    (size : ℕ) (st' st : DecodeState) (r : Option DecodeState)
    → work size st' ≤ work size st
    → StateLess size st' r
    → StateLess size st r
state_trans size st' st none w l = tt
state_trans size st' st (some after) w (q, l) = (q, omega (arith, w, l))

module _ (memacc : ℕ → ℕ × List ℕ) (fd_decode : List ℕ → ℕ → Option Instr) (call_function : Bool)
    (stop : DecodeStop) where
  visit_less :
      (size fuel cur : ℕ) (st : DecodeState)
      → size ≡ 2 ^ 64
      → cur < size
      → InRange st.addr_queue
      → StateLess size st (visit memacc fd_decode call_function stop fuel cur st)
  unfolding visit
  visit_less size fuel cur st e h q =
      let less = scan_less memacc fd_decode call_function stop size fuel cur st e h q in
      elim (Option-cases (scan memacc fd_decode call_function stop fuel cur st)) [
        | inl f ↦ rw (f, visit, ◌>>=◌) tt
        | inr ((joined, after), f) ↦
            let (q', w) =
              subst (λ r. ScanLess memacc fd_decode call_function stop size st r) f less in
            let closed = close_block-Less size (length st.insts) after q' in
            elim (Option-cases joined) [
              | inl g ↦ rw (f, g, visit, ◌>>=◌) (closed.0, omega (arith, closed.1, w))
              | inr (p, g) ↦
                  rw (f, g, visit, ◌>>=◌)
                    (state_trans size (close_block (length st.insts) after) st _
                      (omega (arith, closed.1, w))
                      (split_less size p (close_block (length st.insts) after) closed.0))
            ]
      ]

-- The end of the outer loop: the queue is empty, the map is consistent and leads into the blocks.
pub record Decoded (result : Option DecodeState) : Type 0 where
  pub after : DecodeState
  pub returns : result ≡ some after
  pub consistent : Consistent after
  pub in_blocks : InBlocks after
  pub shaped : Shaped after
  pub finished : after.addr_queue ≡ []

initial-Consistent : (addr : ℕ) → Consistent (initial addr)
initial-Consistent addr = record { at = λ a p e. cc; back = λ i inst e. cc }

initial-InBlocks : (addr : ℕ) → InBlocks (initial addr)
initial-InBlocks addr a q e = cc

popped-InBlocks :
    (st : DecodeState) (rest : List ℕ) → InBlocks st → InBlocks (record st { addr_queue = rest })
popped-InBlocks st rest b a q e =
    let ib = b a q e in
    record { range = ib.range; found = ib.found; from = ib.from; to = ib.to; bound = ib.bound }

popped :
    (st : DecodeState) (cur : ℕ) (rest : List ℕ) (size : ℕ)
    → st.addr_queue ≡ cur ∷ rest
    → suc (work size (record st { addr_queue = rest })) ≡ work size st
popped st cur rest size e = omega (arith, ap length e)

module _ (memacc : ℕ → ℕ × List ℕ) (fd_decode : List ℕ → ℕ → Option Instr) (call_function : Bool)
    (stop : DecodeStop) where
  loop_returns :
      (outer inner : ℕ) (st after : DecodeState) (cur : ℕ) (rest : List ℕ)
      (result : Option DecodeState)
      → st.addr_queue ≡ cur ∷ rest
      → visit memacc fd_decode call_function stop inner cur (record st { addr_queue = rest })
        ≡ some after
      → decode_loop memacc fd_decode call_function stop outer inner after ≡ result
      → decode_loop memacc fd_decode call_function stop (suc outer) inner st ≡ result
  unfolding decode_loop
  loop_returns outer inner st after cur rest result g v r = rw (g, v, ◌>>=◌) r

  decode_loop_lem :
      (size outer inner : ℕ) (st : DecodeState)
      → size ≡ 2 ^ 64
      → work size st < outer
      → 2 ^ 64 < inner
      → InRange st.addr_queue
      → Consistent st
      → InBlocks st
      → Shaped st
      → Decoded (decode_loop memacc fd_decode call_function stop outer inner st)
  unfolding decode_loop
  decode_loop_lem size zero inner st e w f q c b s = absurd (omega arith)
  decode_loop_lem size (suc outer) inner st e w f q c b s = elim (List-cases st.addr_queue) [
    | inl g ↦ record {
      after = st;
      returns = rw g refl;
      consistent = c;
      in_blocks = b;
      shaped = s;
      finished = g;
    }
    | inr (cur, rest, g) ↦
        let (small, q') = subst (λ xs. InRange xs) g q in
        let st1 : DecodeState = record st { addr_queue = rest } in
        let v =
          visit_correct memacc fd_decode call_function stop inner cur st1 small f
            (record { at = c.at; back = c.back }) (popped-InBlocks st rest b) in
        let (q2, less) =
          subst (λ r. StateLess size st1 r) v.returns
            (visit_less memacc fd_decode call_function stop size inner cur st1 e (rw e small) q') in
        let r =
          decode_loop_lem size outer inner v.after e
            (omega (arith, w, less, popped st cur rest size g)) f q2 v.consistent v.in_blocks
            (subst (λ r. ResultShaped r) v.returns
              (visit-Shaped memacc fd_decode call_function stop inner cur st1 small f
                (record { at = c.at; back = c.back }) (popped-InBlocks st rest b) s)) in
        record {
          after = r.after;
          returns =
              loop_returns outer inner st v.after cur rest (some r.after) g v.returns r.returns;
          consistent = r.consistent;
          in_blocks = r.in_blocks;
          shaped = r.shaped;
          finished = r.finished;
        }
  ]

  -- From any start address of 64 bits and whatever the memory holds, the loop that collects the
  -- instructions ends, within 3 * 2 ^ 64 + 1 turns of the outer loop of at most 2 ^ 64 + 1 turns of the
  -- inner loop each, without an access out of bounds: the queue is empty, the address map leads each address that was decoded to its instruction, in a block that has it, and no block is
  -- empty or ends behind the last instruction.
  pub decode_loop_correct :
      (outer inner addr : ℕ)
      → addr < 2 ^ 64
      → 3 * 2 ^ 64 + 1 < outer
      → 2 ^ 64 < inner
      → Decoded (decode_loop memacc fd_decode call_function stop outer inner (initial addr))
  decode_loop_correct outer inner addr h o i =
      decode_loop_lem (2 ^ 64) outer inner (initial addr) refl
        (omega (arith, unmapped-le (2 ^ 64) (initial addr).addr_map, o)) i (h, tt)
        (initial-Consistent addr) (initial-InBlocks addr) tt
