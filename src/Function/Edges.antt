-- ===== src/Function/Edges.antt =====
-- The predecessors and successors of the basic blocks in src/basicblock.cc.
use rellume.Prelude.{
  ℕ, ◌+◌, ◌≡◌, ◌==◌, bit, if◌then◌else◌, Bool, true, false, Option, none, some, List, [], ◌∷◌, ◌++◌,
  refl, ap, ◌∙◌, sym, arith, Bool-cases, inl, inr, ==_iff,
}
use rellume.Function.{
  BasicBlock, br, cond_br, put, add_predecessor, add_successor, set_terminator, branch_to,
  branch_to_cond, has_terminator, with_terminator,
}

-- How often a block is in a list.
abbrev pub count : ℕ → List ℕ → ℕ
count n [] = 0
count n (x ∷ xs) = bit (x == n) + count n xs

count-append : (n : ℕ) (xs : List ℕ) (x : ℕ) → count n (xs ++ x ∷ []) ≡ count n xs + bit (x == n)
count-append n [] x = omega arith
count-append n (y ∷ xs) x = omega (arith, count-append n xs x)

swap_bits : (c d : Bool) → (if c then bit d else 0) ≡ (if d then bit c else 0)
swap_bits true true = refl
swap_bits true false = refl
swap_bits false true = refl
swap_bits false false = refl

module _ {V : Type 0} where
  -- Each edge is known at both of its ends, as often as it was added.
  abbrev pub IsSymmetric : (ℕ → BasicBlock V) → Type 0
  IsSymmetric bs = (x y : ℕ) → count y (bs x).successors ≡ count x (bs y).predecessors

  -- What adding an edge does to the counts.
  successors-add_successor :
      (this next x y : ℕ) (bs : ℕ → BasicBlock V)
      → count y (add_successor this next bs x).successors
        ≡ count y (bs x).successors + (if this == x then bit (next == y) else 0)
  unfolding add_successor
  successors-add_successor this next x y bs = elim (Bool-cases (this == x)) [
    | inl e ↦
        let same : this ≡ x = (==_iff this x).0 e in
        rw (e, count-append y (bs this).successors next, same) refl
    | inr e ↦ rw e (omega arith)
  ]

  predecessors-add_successor :
      (this next x : ℕ) (bs : ℕ → BasicBlock V)
      → (add_successor this next bs x).predecessors ≡ (bs x).predecessors
  unfolding add_successor
  predecessors-add_successor this next x bs = elim (Bool-cases (this == x)) [
    | inl e ↦ rw e (ap (λ (k : ℕ). (bs k).predecessors) ((==_iff this x).0 e))
    | inr e ↦ rw e refl
  ]

  predecessors-add_predecessor :
      (next this x y : ℕ) (bs : ℕ → BasicBlock V)
      → count x (add_predecessor next this bs y).predecessors
        ≡ count x (bs y).predecessors + (if next == y then bit (this == x) else 0)
  unfolding add_predecessor
  predecessors-add_predecessor next this x y bs = elim (Bool-cases (next == y)) [
    | inl e ↦
        let same : next ≡ y = (==_iff next y).0 e in
        rw (e, count-append x (bs next).predecessors this, same) refl
    | inr e ↦ rw e (omega arith)
  ]

  successors-add_predecessor :
      (next this x : ℕ) (bs : ℕ → BasicBlock V)
      → (add_predecessor next this bs x).successors ≡ (bs x).successors
  unfolding add_predecessor
  successors-add_predecessor next this x bs = elim (Bool-cases (next == x)) [
    | inl e ↦ rw e (ap (λ (k : ℕ). (bs k).successors) ((==_iff next x).0 e))
    | inr e ↦ rw e refl
  ]

  -- An edge that is added at both ends.
  edge-IsSymmetric :
      (this next : ℕ) (bs : ℕ → BasicBlock V)
      → IsSymmetric bs
      → IsSymmetric (add_successor this next (add_predecessor next this bs))
  edge-IsSymmetric this next bs s x y =
      successors-add_successor this next x y (add_predecessor next this bs)
      ∙ ap (λ (l : List ℕ). count y l + (if this == x then bit (next == y) else 0))
          (successors-add_predecessor next this x bs)
      ∙ omega (
        arith,
        s x y,
        swap_bits (this == x) (next == y),
        predecessors-add_predecessor next this x y bs,
      )
      ∙ ap (λ (l : List ℕ). count x l)
          (sym (predecessors-add_successor this next y (add_predecessor next this bs)))

  -- Two edges from a block.
  edges-IsSymmetric :
      (this one two : ℕ) (bs : ℕ → BasicBlock V)
      → IsSymmetric bs
      → IsSymmetric (
          add_successor this two
            (add_successor this one (add_predecessor two this (add_predecessor one this bs))))
  edges-IsSymmetric this one two bs s x y =
      let b1 = add_predecessor one this bs in
      let b2 = add_predecessor two this b1 in
      let b3 = add_successor this one b2 in
      successors-add_successor this two x y b3
      ∙ ap (λ (k : ℕ). k + (if this == x then bit (two == y) else 0))
          (successors-add_successor this one x y b2
            ∙ ap (λ (l : List ℕ). count y l + (if this == x then bit (one == y) else 0))
                (successors-add_predecessor two this x b1
                  ∙ successors-add_predecessor one this x bs))
      ∙ omega (
        arith,
        s x y,
        swap_bits (this == x) (one == y),
        swap_bits (this == x) (two == y),
        predecessors-add_predecessor one this x y bs,
        predecessors-add_predecessor two this x y b1,
      )
      ∙ ap (λ (l : List ℕ). count x l)
          (sym
            (predecessors-add_successor this two y b3 ∙ predecessors-add_successor this one y b2))

  -- A change of a block that leaves its edges alone.
  pub put-IsSymmetric :
      (n : ℕ) (bb : BasicBlock V) (bs : ℕ → BasicBlock V)
      → bb.successors ≡ (bs n).successors
      → bb.predecessors ≡ (bs n).predecessors
      → IsSymmetric bs
      → IsSymmetric (put bs n bb)
  put-IsSymmetric n bb bs e f s x y =
      ap (λ (l : List ℕ). count y l) (kept (λ k. k.successors) e x)
      ∙ s x y
      ∙ ap (λ (l : List ℕ). count x l) (sym (kept (λ k. k.predecessors) f y))
    where
      kept : (g : BasicBlock V → List ℕ) → g bb ≡ g (bs n) → (z : ℕ) → g (put bs n bb z) ≡ g (bs z)
      kept g h z = elim (Bool-cases (n == z)) [
        | inl q ↦ rw q (h ∙ ap (λ (k : ℕ). g (bs k)) ((==_iff n z).0 q))
        | inr q ↦ rw q refl
      ]

  abbrev pub AllSymmetric : Option (ℕ → BasicBlock V) → Type 0
  AllSymmetric none = Unit {0}
  AllSymmetric (some bs) = IsSymmetric bs

  pub if-AllSymmetric :
      (c : Bool) (x y : Option (ℕ → BasicBlock V))
      → AllSymmetric x
      → AllSymmetric y
      → AllSymmetric (if c then x else y)
  if-AllSymmetric true x y s r = s
  if-AllSymmetric false x y s r = r

  pub branch_to-IsSymmetric :
      (this next : ℕ) (bs : ℕ → BasicBlock V)
      → IsSymmetric bs
      → AllSymmetric (branch_to this next bs)
  unfolding branch_to set_terminator
  branch_to-IsSymmetric this next bs s = if-AllSymmetric (has_terminator (bs this)) _ _ tt (
      edge-IsSymmetric this next (set_terminator this (br next) bs)
        (put-IsSymmetric this (with_terminator (bs this) (br next)) bs refl refl s))

  pub branch_to_cond-IsSymmetric :
      (this : ℕ) (cond : V) (one two : ℕ) (bs : ℕ → BasicBlock V)
      → IsSymmetric bs
      → AllSymmetric (branch_to_cond this cond one two bs)
  unfolding branch_to_cond set_terminator
  branch_to_cond-IsSymmetric this cond one two bs s =
      if-AllSymmetric (one == two) _ _ (branch_to-IsSymmetric this one bs s) (
        if-AllSymmetric (has_terminator (bs this)) _ _ tt (
          edges-IsSymmetric this one two (set_terminator this (cond_br cond one two) bs) (
            put-IsSymmetric this (with_terminator (bs this) (cond_br cond one two)) bs refl refl
              s)))
