-- ===== src/Decoder/Places.antt =====
-- The address map of Function::Decode in src/lldecoder.cc, while the inner loop decodes.
use rellume.Prelude.{
  ℕ, zero, suc, ◌+◌, ◌≡◌, ◌==◌, ==_iff, ==_refl, Bool, false, Option, none, some, some_inj, List,
  [], ◌∷◌, ◌++◌, ◌||◌, length, get_elem?, get_elem?-concat, get_elem?-append_left,
  lt-length_of_get_elem?, refl, ap, ◌∙◌, sym, arith, Bool-cases, Option-cases, ◌⊎◌, inl, inr,
}
use rellume.Instr.{Instr, u64}
use rellume.Decoder.{
  DecodeStop, instr_stop, basicblock_stop, all_stop, Place, DecodeState, update, leave, go_on,
  fetch, add_decoded, turn_after, turn, instr_flags, successors,
}

-- The address map and the list of instructions agree: an address leads to the number of the
-- instruction at it, and each instruction is found at its address.
pub record Consistent (st : DecodeState) : Type 0 where
  pub at :
      (a : ℕ) (p : Place)
      → st.addr_map a ≡ some p
      → (inst : Instr) × (get_elem? st.insts p.index ≡ some inst) × (inst.address ≡ a)
  pub back :
      (i : ℕ) (inst : Instr)
      → get_elem? st.insts i ≡ some inst
      → (blk : ℕ) × (st.addr_map inst.address ≡ some (record { block = blk; index = i }))

-- An element of a list that has grown is an old one or the new one.
get_elem?-snoc :
    {A : Type 0} (xs : List A) (x y : A) (i : ℕ)
    → get_elem? (xs ++ x ∷ []) i ≡ some y
    → (get_elem? xs i ≡ some y) ⊎ ((i ≡ length xs) × (y ≡ x))
get_elem?-snoc [] x y zero e = inr (refl, sym (some_inj e))
get_elem?-snoc [] x y (suc i) e = cc
get_elem?-snoc (z ∷ xs) x y zero e = inl e
get_elem?-snoc (z ∷ xs) x y (suc i) e = elim (get_elem?-snoc xs x y i e) [
  | inl h ↦ inl h
  | inr (h, k) ↦ inr (ap suc h, k)
]

update_hit : (m : ℕ → Option Place) (a : ℕ) (p : Place) → update m a p a ≡ some p
update_hit m a p = rw (==_refl a) refl

-- An update of a map is the new entry at its address, and the old map elsewhere.
pub update_cases :
    (m : ℕ → Option Place) (a k : ℕ) (p : Place)
    → ((a ≡ k) × (update m a p k ≡ some p)) ⊎ ((a == k) ≡ false × (update m a p k ≡ m k))
update_cases m a k p = elim (Bool-cases (a == k)) [
  | inl e ↦ inl ((==_iff a k).0 e, rw e refl)
  | inr e ↦ inr (e, rw e refl)
]

abbrev pub new_place : DecodeState → Place
new_place st = record { block = length st.blocks; index = length st.insts }

pub add_decoded-Consistent :
    (cur : ℕ) (inst : Instr) (st : DecodeState)
    → st.addr_map cur ≡ none
    → inst.address ≡ cur
    → Consistent st
    → Consistent (add_decoded cur inst st)
unfolding add_decoded
add_decoded-Consistent cur inst st free here c = record {
  at = λ a p e. elim (update_cases st.addr_map cur a (new_place st)) [
    | inl (same, hit) ↦
        let q = some_inj (sym hit ∙ e) in
        (
          inst,
          rw (sym (ap (λ (x : Place). x.index) q)) (get_elem?-concat st.insts inst),
          here ∙ same,
        )
    | inr (_, miss) ↦
        let (old, found, there) = c.at a p (sym miss ∙ e) in
        (
          old,
          get_elem?-append_left st.insts _ p.index (lt-length_of_get_elem? st.insts p.index found)
              ∙ found,
          there,
        )
  ];
  back = λ i other e. elim (get_elem?-snoc st.insts inst other i e) [
    | inl old ↦
        let (blk, found) = c.back i other old in
        elim (update_cases st.addr_map cur other.address (new_place st)) [
          | inl (same, hit) ↦ cc
          | inr (_, miss) ↦ (blk, miss ∙ found)
        ]
    | inr (last, same) ↦ (
      length st.blocks,
      rw (last, ap (λ (x : Instr). x.address) same ∙ here)
          (update_hit st.addr_map cur (new_place st)),
    )
  ];
}

abbrev pub requeue : List ℕ → DecodeState → DecodeState
requeue q st = record st { addr_queue = q }

pub requeue-Consistent : (q : List ℕ) (st : DecodeState) → Consistent st → Consistent (requeue q st)
requeue-Consistent q st c = record { at = c.at; back = c.back }

module _ (memacc : ℕ → ℕ × List ℕ) (fd_decode : List ℕ → ℕ → Option Instr) (call_function : Bool)
    (stop : DecodeStop) where
  fetch-address :
      (cur : ℕ) (inst : Instr)
      → fetch memacc fd_decode call_function stop cur ≡ some inst
      → inst.address ≡ cur
  unfolding fetch
  fetch-address cur inst e = ground arith

  -- A turn leaves the state as it is, or adds an instruction at its address, which is a new one.
  abbrev pub TurnCases : ℕ → DecodeState → Type 0
  TurnCases cur st =
      (turn memacc fd_decode call_function stop cur st ≡ leave (st.addr_map cur) st)
      ⊎ ((inst : Instr) × (st.addr_map cur ≡ none)
          × (inst.address ≡ cur)
          × (((q : List ℕ) × (turn memacc fd_decode call_function stop cur st
                  ≡ leave none (requeue q (add_decoded cur inst st))))
              ⊎ (turn memacc fd_decode call_function stop cur st
                  ≡ go_on (u64 (cur + inst.len)) (add_decoded cur inst st))))

  abbrev ends : Instr → Bool
  ends inst = (instr_flags inst.ty).breaks || (instr_flags inst.ty).breaks_cond

  turn_after_cases :
      (stop : DecodeStop) (cur : ℕ) (inst : Instr) (st : DecodeState)
      → ((q : List ℕ) × (turn_after memacc fd_decode call_function stop cur inst st
            ≡ leave none (requeue q st)))
        ⊎ (turn_after memacc fd_decode call_function stop cur inst st
            ≡ go_on (u64 (cur + inst.len)) st)
  unfolding turn_after
  turn_after_cases instr_stop cur inst st = inl (st.addr_queue, refl)
  turn_after_cases basicblock_stop cur inst st = elim (Bool-cases (ends inst)) [
    | inl c ↦ inl (st.addr_queue, rw c refl)
    | inr c ↦ inr (rw c refl)
  ]
  turn_after_cases all_stop cur inst st = elim (Bool-cases (ends inst)) [
    | inl c ↦
        inl
          (st.addr_queue ++ successors memacc fd_decode call_function all_stop cur inst, rw c refl)
    | inr c ↦ inr (rw c refl)
  ]

  pub turn_cases : (cur : ℕ) (st : DecodeState) → TurnCases cur st
  unfolding turn
  turn_cases cur st = elim (Option-cases (st.addr_map cur)) [
    | inr (p, e) ↦ inl (rw (e, turn) refl)
    | inl free ↦ elim (Option-cases (fetch memacc fd_decode call_function stop cur)) [
      | inl e ↦ inl (rw (free, e, turn) refl)
      | inr (inst, e) ↦ inr (
        inst,
        free,
        fetch-address cur inst e,
        rw (free, e, turn) (turn_after_cases stop cur inst (add_decoded cur inst st)),
      )
    ]
  ]
