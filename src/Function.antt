-- ===== src/Function.antt =====
-- src/basicblock.h, src/basicblock.cc and src/function.cc: the basic blocks of a lifted function and
-- the branches between them. Blocks are numbers, and the objects that the code points to are
-- entries of a store.
pub mod Edges
pub mod Linked
pub mod Resolve
use rellume.Prelude.{
  ℕ, zero, suc, ◌+◌, ◌%◌, ◌^◌, ◌==◌, if◌then◌else◌, ◌||◌, not, Bool, true, false, Option, none,
  some, List, [], ◌∷◌, ◌++◌, ◌>>=◌,
}
use rellume.Facet.{Facet}
use rellume.Register.{ip_reg}
use rellume.Instr.{Instr, u64}
use rellume.Ir.{Builder}
use rellume.RegFile.{RegFile, new, init_with_phis}
use rellume.RegFile.Access.{get_reg}
use rellume.Lifter.Monad.{
  LiftState, Config, CallConvPack, Effect, load, store, call, ret_void, ret_aggregate, ret_call,
  fence, prefetch, memset, assume_aligned,
}

-- BasicBlock::Phis
pub data Phis : Type 0 where
  no_phis native_phis all_phis : Phis

-- A branch at the end of an LLVM block.
pub data Terminator (V : Type 0) : Type 0 where
  br : ℕ → Terminator V
  cond_br : V → ℕ → ℕ → Terminator V

-- BasicBlock, with what its LLVM block holds: the effects of the lifter and the branch.
pub record BasicBlock (V : Type 0) : Type 0 where
  pub regfile : RegFile V
  pub predecessors : List ℕ
  pub successors : List ℕ
  pub effects : List (Effect V)
  pub terminator : Option (Terminator V)

-- ArchBasicBlock: the first of its low blocks, and the one that is written to.
pub record ArchBasicBlock : Type 0 where
  pub begin_block : ℕ
  pub insert_block : ℕ

-- Function, with the blocks that exist.
pub record FunctionState (V : Type 0) : Type 0 where
  pub blocks : ℕ → BasicBlock V
  pub block_count : ℕ
  pub block_map : List (ℕ × ArchBasicBlock)
  pub entry_block : ArchBasicBlock
  pub exit_block : ArchBasicBlock
  pub entry_ip : ℕ
  pub entry_ip_value : V
  pub loads : ℕ
  pub call_conv_packs : List CallConvPack

-- The options of LLConfig that src/function.cc reads.
pub record FunctionConfig : Type 0 where
  pub position_independent_code : Bool
  pub full_facets : Bool

abbrev pub put : {A : Type 0} → (ℕ → A) → ℕ → A → ℕ → A
put f n v = λ k. if n == k then v else f k

-- block_map.find
unfoldable pub find : {A : Type 0} → ℕ → List (ℕ × A) → Option A
find addr [] = none
find addr ((a, x) ∷ rest) = if a == addr then some x else find addr rest

module _ {V : Type 0} where
  abbrev is_ret : Effect V → Bool
  is_ret ret_void = true
  is_ret (ret_aggregate vs) = true
  is_ret (ret_call v) = true
  is_ret e = false

  abbrev any_ret : List (Effect V) → Bool
  any_ret [] = false
  any_ret (e ∷ rest) = is_ret e || any_ret rest

  -- getTerminator, which is a branch or a return
  unfoldable pub has_terminator : BasicBlock V → Bool
  has_terminator bb = elim bb.terminator [ some t ↦ true | none ↦ any_ret bb.effects ]

  abbrev pub with_terminator : BasicBlock V → Terminator V → BasicBlock V
  with_terminator bb t = record bb { terminator = some t }

  -- predecessors.push_back and successors.push_back
  unfoldable pub add_predecessor : ℕ → ℕ → (ℕ → BasicBlock V) → ℕ → BasicBlock V
  add_predecessor next this bs =
      put bs next (record (bs next) { predecessors = (bs next).predecessors ++ this ∷ [] })

  unfoldable pub add_successor : ℕ → ℕ → (ℕ → BasicBlock V) → ℕ → BasicBlock V
  add_successor this next bs =
      put bs this (record (bs this) { successors = (bs this).successors ++ next ∷ [] })

  unfoldable pub set_terminator : ℕ → Terminator V → (ℕ → BasicBlock V) → ℕ → BasicBlock V
  set_terminator this t bs = put bs this (with_terminator (bs this) t)

  -- BasicBlock::BranchTo; `none` is the failed assertion.
  unfoldable pub branch_to : ℕ → ℕ → (ℕ → BasicBlock V) → Option (ℕ → BasicBlock V)
  unfolding add_predecessor add_successor set_terminator
  branch_to this next bs =
      if has_terminator (bs this)
      then none
      else some
          (add_successor this next (add_predecessor next this (set_terminator this (br next) bs)))

  -- BasicBlock::BranchTo with a condition
  unfoldable pub branch_to_cond : ℕ → V → ℕ → ℕ → (ℕ → BasicBlock V) → Option (ℕ → BasicBlock V)
  unfolding branch_to
  branch_to_cond this cond then_block other_block bs =
      if then_block == other_block
      then branch_to this then_block bs
      else if has_terminator (bs this)
      then none
      else (let bs1 = set_terminator this (cond_br cond then_block other_block) bs in
          let bs2 = add_predecessor other_block this (add_predecessor then_block this bs1) in
          some (add_successor this other_block (add_successor this then_block bs2)))

  -- ArchBasicBlock::BranchTo, without and with a condition
  unfoldable pub arch_branch_to :
      ArchBasicBlock → ArchBasicBlock → (ℕ → BasicBlock V) → Option (ℕ → BasicBlock V)
  unfolding branch_to
  arch_branch_to this next bs = branch_to this.insert_block next.begin_block bs

  unfoldable pub arch_branch_to_cond :
      ArchBasicBlock
      → V
      → ArchBasicBlock
      → ArchBasicBlock
      → (ℕ → BasicBlock V)
      → Option (ℕ → BasicBlock V)
  unfolding branch_to_cond
  arch_branch_to_cond this cond then_block other_block bs =
      branch_to_cond this.insert_block cond then_block.begin_block other_block.begin_block bs

abbrev init_phis : {V : Type 0} → Phis → RegFile V → RegFile V
init_phis no_phis rf = rf
init_phis native_phis rf = init_with_phis false rf
init_phis all_phis rf = init_with_phis true rf

abbrev phi_mode : FunctionConfig → Phis
phi_mode cfg = if cfg.full_facets then all_phis else native_phis

module _ {V : Type 0} where
  -- The constructors of BasicBlock and ArchBasicBlock
  unfoldable pub new_block : ℕ → Phis → BasicBlock V
  unfolding init_with_phis new
  new_block n phis = record {
    regfile = init_phis phis (new n);
    predecessors = [];
    successors = [];
    effects = [];
    terminator = none;
  }

  unfoldable pub new_arch_block : Phis → FunctionState V → ArchBasicBlock × FunctionState V
  unfolding new_block
  new_arch_block phis fn =
      let n = fn.block_count in
      (
        record { begin_block = n; insert_block = n },
        record fn { blocks = put fn.blocks n (new_block n phis); block_count = suc n },
      )

module _ {V : Type 0} (b : Builder V) (same : V → V → Bool) (cfg : FunctionConfig) where
  open b use {as_add, as_const, as_select, const_int}

  -- The first instruction gives the function its entry.
  unfoldable pub set_entry : ℕ → FunctionState V → FunctionState V
  set_entry block_addr fn = elim fn.block_map [
    | [] ↦ record fn {
      entry_ip = block_addr;
      entry_ip_value =
          if cfg.position_independent_code then fn.entry_ip_value else const_int 64 block_addr;
    }
    | entry ∷ rest ↦ fn
  ]

  -- The block of an address, which is made if there is none.
  unfoldable pub block_at : ℕ → FunctionState V → ArchBasicBlock × FunctionState V
  unfolding find new_arch_block
  block_at block_addr fn = elim (find block_addr fn.block_map) [
    | some ab ↦ (ab, fn)
    | none ↦
        let (ab, fn1) = new_arch_block (phi_mode cfg) fn in
        (ab, record fn1 { block_map = fn1.block_map ++ (block_addr, ab) ∷ [] })
  ]

  -- Function::AddInst, over LiftInstruction
  unfoldable pub add_inst :
      (FunctionState V → Instr → LiftState V → Option (Bool × LiftState V))
      → ℕ
      → Instr
      → FunctionState V
      → Option (Bool × FunctionState V)
  unfolding set_entry block_at
  add_inst lift_instruction block_addr inst fn = do
    let (ab, fn1) = block_at block_addr (set_entry block_addr fn)
    let bb = fn1.blocks ab.insert_block
    (ok, s) ← lift_instruction fn1 inst (record {
      regfile = bb.regfile;
      effects = bb.effects;
      loads = fn1.loads;
      call_conv_packs = fn1.call_conv_packs;
    })
    some (
      ok,
      record fn1 {
        blocks =
            put fn1.blocks ab.insert_block (record bb { regfile = s.regfile; effects = s.effects });
        loads = s.loads;
        call_conv_packs = s.call_conv_packs;
      },
    )

  -- The constant of an address: under position-independent code, what is added to the entry.
  unfoldable pub address_constant : FunctionState V → V → Option ℕ
  address_constant fn addr =
      if cfg.position_independent_code
      then elim (as_add addr) [
        | none ↦ none
        | some (base, off) ↦
            if same base fn.entry_ip_value
            then elim (as_const off) [ none ↦ none | some c ↦ some (u64 (fn.entry_ip + c)) ]
            else none
      ]
      else as_const addr

  -- Function::ResolveAddr
  unfoldable pub resolve_addr : FunctionState V → V → ArchBasicBlock
  unfolding address_constant find
  resolve_addr fn addr = elim (address_constant fn addr) [
    | none ↦ fn.exit_block
    | some a ↦ elim (find a fn.block_map) [ none ↦ fn.exit_block | some ab ↦ ab ]
  ]

  -- The branches of a block that Lift adds.
  unfoldable pub link_block : ArchBasicBlock → FunctionState V → Option (FunctionState V)
  unfolding resolve_addr arch_branch_to arch_branch_to_cond has_terminator
  link_block ab fn =
      let bb = fn.blocks ab.insert_block in
      if has_terminator bb then some fn else do
        (next_rip, rf) ← get_reg b ip_reg Facet.i64 bb.regfile
        let blocks = put fn.blocks ab.insert_block (record bb { regfile = rf })
        linked ← elim (as_select next_rip) [
          | some (cond, then_rip, other_rip) ↦
              arch_branch_to_cond ab cond (resolve_addr fn then_rip) (resolve_addr fn other_rip)
                blocks
          | none ↦ arch_branch_to ab (resolve_addr fn next_rip) blocks
        ]
        some (record fn { blocks = linked })

  -- The loop over the block map in Lift, in the order of the list.
  unfoldable pub link_blocks :
      List (ℕ × ArchBasicBlock) → FunctionState V → Option (FunctionState V)
  unfolding link_block
  link_blocks [] fn = some fn
  link_blocks ((addr, ab) ∷ rest) fn = do fn1 ← link_block ab fn; link_blocks rest fn1

  -- The exit block is made and handed to the code that leaves the function, the entry block goes on
  -- at the entry, and the blocks are linked.
  unfoldable pub link_from_entry :
      (ArchBasicBlock → FunctionState V → Option (FunctionState V))
      → FunctionState V
      → Option (FunctionState V)
  unfolding link_blocks
  link_from_entry leave_function fn = do
    let (ab, fn1) = new_arch_block (phi_mode cfg) fn
    fn2 ← leave_function ab (record fn1 { exit_block = ab })
    target ← find fn2.entry_ip fn2.block_map
    blocks ← arch_branch_to fn2.entry_block target fn2.blocks
    link_blocks fn2.block_map (record fn2 { blocks = blocks })

  -- Lift up to the branches of all blocks; a function without an instruction is not lifted.
  unfoldable pub link_function :
      (ArchBasicBlock → FunctionState V → Option (FunctionState V))
      → FunctionState V
      → Option (FunctionState V)
  unfolding link_from_entry
  link_function leave_function fn = elim fn.block_map [
    | [] ↦ none
    | entry ∷ rest ↦ link_from_entry leave_function fn
  ]
