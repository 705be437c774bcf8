-- ===== src/Function/Linked.antt =====
-- The branches that Function::Lift of src/function.cc adds.
use mathlib.Core.Path.{subst}
use rellume.Prelude.{
  ℕ, ◌≡◌, Bool, Option, none, some, List, [], ◌∷◌, refl, Bool-cases, Option-cases, inl, inr, ◌>>=◌,
}
use rellume.Facet.{Facet}
use rellume.Register.{ip_reg}
use rellume.Ir.{Builder}
use rellume.RegFile.{RegFile}
use rellume.RegFile.Access.{get_reg}
use rellume.Function.{
  BasicBlock, ArchBasicBlock, FunctionState, FunctionConfig, put, has_terminator, resolve_addr,
  arch_branch_to, arch_branch_to_cond, link_block, link_blocks,
}
use rellume.Function.Edges.{
  IsSymmetric, AllSymmetric, put-IsSymmetric, branch_to-IsSymmetric, branch_to_cond-IsSymmetric,
}

module _ {V : Type 0} (b : Builder V) (same : V → V → Bool) (cfg : FunctionConfig) where
  abbrev StateSymmetric : Option (FunctionState V) → Type 0
  StateSymmetric none = Unit {0}
  StateSymmetric (some fn) = IsSymmetric fn.blocks

  -- The two branches of a block whose next address was read.
  abbrev branched :
      Option (V × V × V)
      → V
      → ArchBasicBlock
      → FunctionState V
      → (ℕ → BasicBlock V)
      → Option (ℕ → BasicBlock V)
  branched sel next_rip ab fn blocks = elim sel [
    | some (cond, then_rip, other_rip) ↦
        arch_branch_to_cond ab cond (resolve_addr b same cfg fn then_rip)
          (resolve_addr b same cfg fn other_rip) blocks
    | none ↦ arch_branch_to ab (resolve_addr b same cfg fn next_rip) blocks
  ]

  branched-AllSymmetric :
      (sel : Option (V × V × V)) (next_rip : V) (ab : ArchBasicBlock) (fn : FunctionState V)
      (blocks : ℕ → BasicBlock V)
      → IsSymmetric blocks
      → AllSymmetric (branched sel next_rip ab fn blocks)
  unfolding arch_branch_to arch_branch_to_cond
  branched-AllSymmetric (some (cond, then_rip, other_rip)) next_rip ab fn blocks s =
      branch_to_cond-IsSymmetric ab.insert_block cond _ _ blocks s
  branched-AllSymmetric none next_rip ab fn blocks s =
      branch_to-IsSymmetric ab.insert_block _ blocks s

  abbrev with_regfile : BasicBlock V → RegFile V → BasicBlock V
  with_regfile bb rf = record bb { regfile = rf }

  state_lem :
      (fn : FunctionState V) (r : Option (ℕ → BasicBlock V))
      → AllSymmetric r
      → StateSymmetric (r >>= λ linked. some (record fn { blocks = linked }))
  state_lem fn none s = tt
  state_lem fn (some bs) s = s

  link_block-IsSymmetric :
      (ab : ArchBasicBlock) (fn : FunctionState V)
      → IsSymmetric fn.blocks
      → StateSymmetric (link_block b same cfg ab fn)
  unfolding link_block
  link_block-IsSymmetric ab fn s = elim (Bool-cases (has_terminator (fn.blocks ab.insert_block))) [
    | inl e ↦ rw (e, link_block) s
    | inr e ↦ elim (Option-cases (get_reg b ip_reg Facet.i64 (fn.blocks ab.insert_block).regfile)) [
      | inl f ↦ rw (e, f, link_block, ◌>>=◌) tt
      | inr ((next_rip, rf), f) ↦
          rw (e, f, link_block, ◌>>=◌)
            (state_lem fn _ (
              branched-AllSymmetric (b.as_select next_rip) next_rip ab fn
                (put fn.blocks ab.insert_block (with_regfile (fn.blocks ab.insert_block) rf))
                (put-IsSymmetric ab.insert_block (with_regfile (fn.blocks ab.insert_block) rf)
                  fn.blocks refl refl s)))
    ]
  ]

  link_step :
      (r : Option (FunctionState V)) (k : FunctionState V → Option (FunctionState V))
      → StateSymmetric r
      → ((fn : FunctionState V) → IsSymmetric fn.blocks → StateSymmetric (k fn))
      → StateSymmetric (r >>= k)
  link_step none k s f = tt
  link_step (some fn) k s f = f fn s

  link_blocks_lem :
      (entries : List (ℕ × ArchBasicBlock)) (fn : FunctionState V)
      → IsSymmetric fn.blocks
      → StateSymmetric (link_blocks b same cfg entries fn)
  unfolding link_blocks
  link_blocks_lem [] fn s = s
  link_blocks_lem ((addr, ab) ∷ rest) fn s =
      link_step (link_block b same cfg ab fn) (λ f. link_blocks b same cfg rest f)
        (link_block-IsSymmetric ab fn s) (λ f q. link_blocks_lem rest f q)

  -- From blocks of which each edge is known at both of its ends, as often as it was added, the loop
  -- of Lift that adds the branches of all blocks, in any order and unless an assertion fails, leads
  -- to such blocks again: a block is in the successors of another as often as that one is in its
  -- predecessors, also where both targets of a branch are one block or the block itself.
  pub link_blocks-IsSymmetric :
      (entries : List (ℕ × ArchBasicBlock)) (fn fn' : FunctionState V)
      → IsSymmetric fn.blocks
      → link_blocks b same cfg entries fn ≡ some fn'
      → IsSymmetric fn'.blocks
  link_blocks-IsSymmetric entries fn fn' s e =
      subst (λ r. StateSymmetric r) e (link_blocks_lem entries fn s)
