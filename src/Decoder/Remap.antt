-- ===== src/Decoder/Remap.antt =====
-- The loop of Function::Decode in src/lldecoder.cc that moves instructions to a new block.
use mathlib.Core.Path.{subst}
use rellume.Prelude.{
  ℕ, zero, suc, ◌+◌, ◌<◌, ◌≤◌, ◌≡◌, ◌==◌, ltb, false, Option, some, some_inj, length, get_elem?,
  get_elem?_of_lt, refl, ap, ◌∙◌, sym, arith, Bool-cases, ◌⊎◌, inl, inr, ◌>>=◌,
}
use rellume.Instr.{Instr}
use rellume.Decoder.{Place, DecodeState, update, remap}
use rellume.Decoder.Places.{Consistent, update_cases}

abbrev pub with_map : DecodeState → (ℕ → Option Place) → DecodeState
with_map st m = record st { addr_map = m }

abbrev pub place : ℕ → ℕ → Place
place blk j = record { block = blk; index = j }

place-Consistent :
    (new_block j : ℕ) (inst : Instr) (st : DecodeState)
    → get_elem? st.insts j ≡ some inst
    → Consistent st
    → Consistent (with_map st (update st.addr_map inst.address (place new_block j)))
place-Consistent new_block j inst st found c = record {
  at = λ a p e. elim (update_cases st.addr_map inst.address a (place new_block j)) [
    | inl (same, hit) ↦ (
      inst,
      subst (λ (x : Place). get_elem? st.insts x.index ≡ some inst) (some_inj (sym hit ∙ e)) found,
      same,
    )
    | inr (_, miss) ↦ c.at a p (sym miss ∙ e)
  ];
  back = λ i other e.
      let (blk, f) = c.back i other e in
      let (old, g) = c.back j inst found in
      elim (update_cases st.addr_map inst.address other.address (place new_block j)) [
        | inl (same, hit) ↦
            let number : j ≡ i =
              ap (λ (x : Place). x.index) (some_inj (sym g ∙ ap st.addr_map same ∙ f)) in
            (new_block, hit ∙ ap (λ (k : ℕ). some (place new_block k)) number)
        | inr (_, miss) ↦ (blk, miss ∙ f)
      ];
}

-- Some entries have moved to a new block, those of the instructions from number j on, n of them.
pub record Remapped (result : Option (ℕ → Option Place)) (new_block j n : ℕ) (st : DecodeState)
    : Type 0 where
  pub m : ℕ → Option Place
  pub returns : result ≡ some m
  pub consistent : Consistent (with_map st m)
  pub entries :
      (a : ℕ) (p : Place)
      → m a ≡ some p
      → ((st.addr_map a ≡ some p) × ((p.index < j) ⊎ (j + n ≤ p.index)))
        ⊎ ((p.block ≡ new_block) × (j ≤ p.index) × (p.index < j + n))

lt_or_le : (m n : ℕ) → (m < n) ⊎ (n ≤ m)
lt_or_le m n = elim (Bool-cases (ltb m n)) [
  | inl e ↦ inl (ground arith)
  | inr e ↦ inr (ground arith)
]

lt_or_eq : {m n : ℕ} → m < suc n → (m < n) ⊎ (m ≡ n)
lt_or_eq {m} {n} h = elim (lt_or_le m n) [ inl l ↦ inl l | inr g ↦ inr (omega arith) ]

pub apart : {m n : ℕ} → (m == n) ≡ false → m ≡ n → ⊥
apart e h = ground arith

-- The entry of an instruction is at its address.
other_index :
    (st : DecodeState) (j a : ℕ) (p : Place) (inst : Instr)
    → Consistent st
    → get_elem? st.insts j ≡ some inst
    → st.addr_map a ≡ some p
    → (inst.address == a) ≡ false
    → p.index ≡ j
    → ⊥
other_index st j a p inst c found e differ same =
    let (old, there, here) = c.at a p e in
    let equal : old ≡ inst = some_inj (sym there ∙ ap (get_elem? st.insts) same ∙ found) in
    apart differ (sym (ap (λ (x : Instr). x.address) equal) ∙ here)

moved :
    (new_block n j a : ℕ) (p : Place) (inst : Instr) (st : DecodeState)
    → Consistent st
    → get_elem? st.insts j ≡ some inst
    → ((update st.addr_map inst.address (place new_block j) a ≡ some p)
        × ((p.index < suc j) ⊎ (suc j + n ≤ p.index)))
      ⊎ ((p.block ≡ new_block) × (suc j ≤ p.index) × (p.index < suc j + n))
    → ((st.addr_map a ≡ some p) × ((p.index < j) ⊎ (j + suc n ≤ p.index)))
      ⊎ ((p.block ≡ new_block) × (j ≤ p.index) × (p.index < j + suc n))
moved new_block n j a p inst st c found (inr (b, l, u)) = inr (b, omega arith, omega arith)
moved new_block n j a p inst st c found (inl (e, range)) =
    elim (update_cases st.addr_map inst.address a (place new_block j)) [
      | inl (same, hit) ↦
          let q : place new_block j ≡ p = some_inj (sym hit ∙ e) in
          let number : j ≡ p.index = ap (λ (x : Place). x.index) q in
          inr (sym (ap (λ (x : Place). x.block) q), omega arith, omega arith)
      | inr (differ, miss) ↦
          let old : st.addr_map a ≡ some p = sym miss ∙ e in
          inl (
            old,
            elim range [
              | inr g ↦ inr (omega arith)
              | inl l ↦ elim (lt_or_eq l) [
                | inl below ↦ inl below
                | inr same ↦ absurd (other_index st j a p inst c found old differ same)
              ]
            ],
          )
    ]

pub remap_lem :
    (new_block n j : ℕ) (st : DecodeState)
    → Consistent st
    → j + n ≤ length st.insts
    → Remapped (remap st.insts new_block j n st.addr_map) new_block j n st
unfolding remap
remap_lem new_block zero j st c h = record {
  m = st.addr_map;
  returns = refl;
  consistent = c;
  entries =
      λ a p e. inl (e, elim (lt_or_le p.index j) [ inl l ↦ inl l | inr g ↦ inr (omega arith) ]);
}
remap_lem new_block (suc n) j st c h =
    let (inst, found) = get_elem?_of_lt st.insts j (omega arith) in
    let st' = with_map st (update st.addr_map inst.address (place new_block j)) in
    let rest =
      remap_lem new_block n (suc j) st' (place-Consistent new_block j inst st found c)
        (omega arith) in
    record {
      m = rest.m;
      returns = rw (found, ◌>>=◌) rest.returns;
      consistent = rest.consistent;
      entries = λ a p e. moved new_block n j a p inst st c found (rest.entries a p e);
    }
