-- ===== src/Decoder/Scan.antt =====
-- The inner loop of Function::Decode in src/lldecoder.cc.
use native.Mathlib.Nat.{mod-lt}
use mathlib.Core.Path.{subst}
use rellume.Prelude.{
  length, length-append, some_inj, ◌⊎◌, ℕ, zero, suc, ◌+◌, ◌^◌, ◌<◌, ◌≤◌, ◌≡◌, Bool, Option, none,
  some, List, [], ◌∷◌, ◌++◌, refl, ap, ◌∙◌, sym, arith, inl, inr,
}
use rellume.Instr.{Instr, u64, end}
use rellume.Decoder.{DecodeStop, Place, DecodeState, add_decoded, scan}
use rellume.Decoder.Places.{
  Consistent, add_decoded-Consistent, requeue, requeue-Consistent, turn_cases, update_cases,
  new_place,
}
use rellume.Decoder.Unmapped.{unmapped, unmapped-le, unmapped-update}

-- Instructions that follow one another from one address to another.
abbrev pub Chain : ℕ → List Instr → ℕ → Type 0
Chain from [] to = from ≡ to
Chain from (inst ∷ rest) to = (inst.address ≡ from) × Chain (end inst) rest to

-- An entry is an old one, or that of a new instruction in the block to come.
abbrev pub Fresh : DecodeState → ℕ → Place → Type 0
Fresh st a q =
    (st.addr_map a ≡ some q) ⊎ ((q.block ≡ length st.blocks) × (length st.insts ≤ q.index))

at_new_place :
    (st : DecodeState) (q : Place)
    → new_place st ≡ q
    → (q.block ≡ length st.blocks) × (length st.insts ≤ q.index)
at_new_place st q e =
    let number : length st.insts ≡ q.index = ap (λ (x : Place). x.index) e in
    (sym (ap (λ (x : Place). x.block) e), omega arith)

add_decoded-Fresh :
    (cur a : ℕ) (q : Place) (inst : Instr) (st : DecodeState)
    → (add_decoded cur inst st).addr_map a ≡ some q
    → Fresh st a q
unfolding add_decoded
add_decoded-Fresh cur a q inst st e = elim (update_cases st.addr_map cur a (new_place st)) [
  | inl (_, hit) ↦ inr (at_new_place st q (some_inj (sym hit ∙ e)))
  | inr (_, miss) ↦ inl (sym miss ∙ e)
]

-- What is new after a further instruction is new.
Fresh-add_decoded :
    (cur a : ℕ) (q : Place) (inst : Instr) (st : DecodeState)
    → Fresh (add_decoded cur inst st) a q
    → Fresh st a q
unfolding add_decoded
Fresh-add_decoded cur a q inst st (inl e) = add_decoded-Fresh cur a q inst st e
Fresh-add_decoded cur a q inst st (inr (b, l)) =
    inr (b, omega (arith, length-append st.insts (inst ∷ [])))

-- The end of the inner loop: it has added a chain of instructions from an address to another, in no
-- block yet, and if it reports an entry, it is that of the last address.
pub record Scanned (result : Option (Option Place × DecodeState)) (cur : ℕ) (st : DecodeState)
    : Type 0 where
  pub joined : Option Place
  pub after : DecodeState
  pub extra : List Instr
  pub next : ℕ
  pub returns : result ≡ some (joined, after)
  pub consistent : Consistent after
  pub added : after.insts ≡ st.insts ++ extra
  pub same_blocks : after.blocks ≡ st.blocks
  pub chain : Chain cur extra next
  pub reached : (p : Place) → joined ≡ some p → after.addr_map next ≡ some p
  pub fresh : (a : ℕ) (q : Place) → after.addr_map a ≡ some q → Fresh st a q

append_nil : {A : Type 0} (xs : List A) → xs ++ [] ≡ xs
append_nil [] = refl
append_nil (x ∷ xs) = ap (λ ys. x ∷ ys) (append_nil xs)

append_assoc :
    {A : Type 0} (xs : List A) (x : A) (ys : List A) → (xs ++ x ∷ []) ++ ys ≡ xs ++ x ∷ ys
append_assoc [] x ys = refl
append_assoc (z ∷ xs) x ys = ap (λ zs. z ∷ zs) (append_assoc xs x ys)

leave_lem :
    (cur : ℕ) (st : DecodeState) → Consistent st → Scanned (some (st.addr_map cur, st)) cur st
leave_lem cur st c = record {
  joined = st.addr_map cur;
  after = st;
  extra = [];
  next = cur;
  returns = refl;
  consistent = c;
  added = sym (append_nil st.insts);
  same_blocks = refl;
  chain = refl;
  reached = λ p e. e;
  fresh = λ a q e. inl e;
}

last_lem :
    (cur : ℕ) (inst : Instr) (q : List ℕ) (st : DecodeState)
    → inst.address ≡ cur
    → Consistent (add_decoded cur inst st)
    → Scanned (some (none, requeue q (add_decoded cur inst st))) cur st
unfolding add_decoded
last_lem cur inst q st here c = record {
  joined = none;
  after = requeue q (add_decoded cur inst st);
  extra = inst ∷ [];
  next = end inst;
  returns = refl;
  consistent = requeue-Consistent q (add_decoded cur inst st) c;
  added = refl;
  same_blocks = refl;
  chain = (here, refl);
  reached = λ p e. cc;
  fresh = λ a q e. add_decoded-Fresh cur a q inst st e;
}

more_lem :
    (result : Option (Option Place × DecodeState)) (cur from : ℕ) (inst : Instr) (st : DecodeState)
    → inst.address ≡ cur
    → from ≡ end inst
    → Scanned result from (add_decoded cur inst st)
    → Scanned result cur st
unfolding add_decoded
more_lem result cur from inst st here e r = record {
  joined = r.joined;
  after = r.after;
  extra = inst ∷ r.extra;
  next = r.next;
  returns = r.returns;
  consistent = r.consistent;
  added = r.added ∙ append_assoc st.insts inst r.extra;
  same_blocks = r.same_blocks;
  chain = (here, subst (λ (a : ℕ). Chain a r.extra r.next) e r.chain);
  reached = r.reached;
  fresh = λ a q e. Fresh-add_decoded cur a q inst st (r.fresh a q e);
}

fuel_left :
    (size cur fuel : ℕ) (inst : Instr) (st : DecodeState)
    → cur < size
    → st.addr_map cur ≡ none
    → unmapped size st.addr_map < suc fuel
    → unmapped size (add_decoded cur inst st).addr_map < fuel
unfolding add_decoded
fuel_left size cur fuel inst st h free f =
    omega (arith, unmapped-update size cur (new_place st) st.addr_map h free)

no_fuel : {n : ℕ} → n < 0 → ⊥
no_fuel h = omega arith

u64-lt : (size n : ℕ) → size ≡ 2 ^ 64 → u64 n < size
u64-lt size n e = rw e (mod-lt n (omega arith))

module _ (memacc : ℕ → ℕ × List ℕ) (fd_decode : List ℕ → ℕ → Option Instr) (call_function : Bool)
    (stop : DecodeStop) where
  abbrev run : ℕ → ℕ → DecodeState → Option (Option Place × DecodeState)
  run = scan memacc fd_decode call_function stop

  scan_lem :
      (size fuel cur : ℕ) (st : DecodeState)
      → size ≡ 2 ^ 64
      → cur < size
      → unmapped size st.addr_map < fuel
      → Consistent st
      → Scanned (run fuel cur st) cur st
  unfolding scan
  scan_lem size zero cur st e h f c = absurd (no_fuel f)
  scan_lem size (suc fuel) cur st e h f c =
      elim (turn_cases memacc fd_decode call_function stop cur st) [
        | inl t ↦ rw (t, scan) (leave_lem cur st c)
        | inr (inst, free, here, inl (q, t)) ↦
            rw (t, scan)
              (last_lem cur inst q st here (add_decoded-Consistent cur inst st free here c))
        | inr (inst, free, here, inr t) ↦
            let st' = add_decoded cur inst st in
            let c' = add_decoded-Consistent cur inst st free here c in
            let f' = fuel_left size cur fuel inst st h free f in
            let goal = scan_lem size fuel (u64 (cur + inst.len)) st' e (u64-lt size _ e) f' c' in
            rw (t, scan)
              (more_lem (run fuel (u64 (cur + inst.len)) st') cur (u64 (cur + inst.len)) inst st
                here (ap (λ (a : ℕ). u64 (a + inst.len)) (sym here)) goal)
      ]

  -- From a consistent state and an address of 64 bits, the inner loop ends within 2 ^ 64 + 1 turns,
  -- whatever the memory holds. It adds a chain of instructions that starts at the address, each at
  -- the end of the one before, leaves the blocks alone, and keeps the address map and the
  -- instructions consistent; if it reports an entry, it is that of the address behind the chain.
  pub scan_correct :
      (fuel cur : ℕ) (st : DecodeState)
      → cur < 2 ^ 64
      → 2 ^ 64 < fuel
      → Consistent st
      → Scanned (scan memacc fd_decode call_function stop fuel cur st) cur st
  scan_correct fuel cur st h f c =
      scan_lem (2 ^ 64) fuel cur st refl h (omega (arith, unmapped-le (2 ^ 64) st.addr_map)) c
