-- ===== src/FunctionExamples.antt =====
-- Runs of the definitions on basic blocks and functions on concrete values.
use rellume.Prelude.{ℕ, ◌≡◌, ◌==◌, Bool, false, Option, none, some, [], ◌∷◌, refl, arith}
use rellume.Facet.{Facet}
use rellume.Register.{ip_reg}
use rellume.Ir.Meaning.Constant.{Constant, num, number, constants}
use rellume.RegFile.Access.{get_reg as rf_get_reg, get_reg_facet}
use rellume.Lifter.Monad.{LiftState, set_ip}
use rellume.Function.{
  BasicBlock, ArchBasicBlock, FunctionState, FunctionConfig, find, link_blocks, link_block,
  resolve_addr, address_constant, arch_branch_to, branch_to,
}
use rellume.Function.Edges.{IsSymmetric}
use rellume.Function.Linked.{link_blocks-IsSymmetric}
use rellume.Function.Resolve.{Folds, resolve_addr-set_ip}
use rellume.Examples.{config, registers, start}

abbrev fixed_address : FunctionConfig
fixed_address = record { position_independent_code = false; full_facets = false }

abbrev same_number : Constant → Constant → Bool
same_number x y = number x == number y

abbrev empty_block : BasicBlock Constant
empty_block = record {
  regfile = registers;
  predecessors = [];
  successors = [];
  effects = [];
  terminator = none;
}

abbrev arch_block : ℕ → ArchBasicBlock
arch_block n = record { begin_block = n; insert_block = n }

-- A function with one block that goes on at its own begin.
abbrev self_loop : FunctionState Constant
self_loop = record {
  blocks = λ n. empty_block;
  block_count = 3;
  block_map = (4096, arch_block 1) ∷ [];
  entry_block = arch_block 0;
  exit_block = arch_block 2;
  entry_ip = 4096;
  entry_ip_value = num 64 4096;
  loads = 0;
  call_conv_packs = [];
}

constants-Folds : Folds constants same_number fixed_address (num 64 4096) 4096
constants-Folds = record {
  same_refl = refl;
  constant = λ n. refl;
  apart = λ e n. cc;
  folded = λ e n. refl;
  sum_ty = λ n. refl;
  sum_phi = λ n. refl;
}

resolve_addr-set_ip_example :
    (s' : LiftState Constant) × (v : Constant) × (set_ip constants config 4096 false start
      ≡ some (tt, s'))
    × (rf_get_reg constants ip_reg Facet.i64 s'.regfile ≡ some (v, s'.regfile))
    × (resolve_addr constants same_number fixed_address self_loop v ≡ arch_block 1)
unfolding find
resolve_addr-set_ip_example =
    resolve_addr-set_ip constants same_number fixed_address config self_loop 4096 start
      (arch_block 1) refl refl constants-Folds (omega arith) (omega arith) refl

abbrev or_else : {A : Type 0} → Option A → A → A
or_else none d = d
or_else (some x) d = x

-- The function after its branches were added.
abbrev linked_loop : FunctionState Constant
linked_loop =
    or_else (link_blocks constants same_number fixed_address self_loop.block_map self_loop)
      self_loop

link_blocks-IsSymmetric_example : IsSymmetric linked_loop.blocks
unfolding link_blocks link_block resolve_addr address_constant find arch_branch_to branch_to
    rf_get_reg get_reg_facet
link_blocks-IsSymmetric_example =
    link_blocks-IsSymmetric constants same_number fixed_address self_loop.block_map self_loop
      linked_loop (λ x y. refl) refl

-- The block is its own successor and predecessor.
linked_loop_edges : (linked_loop.blocks 1).successors ≡ 1 ∷ []
unfolding link_blocks link_block resolve_addr address_constant find arch_branch_to branch_to
    rf_get_reg get_reg_facet
linked_loop_edges = refl
