-- ===== src/Decoder.antt =====
-- src/lldecoder.cc: Function::Decode, which follows the control flow from an address, collects the
-- instructions and cuts them into basic blocks, and lifts these. The memory, fadec's decoder and
-- Function::AddInst are parameters.
pub mod Places
pub mod Unmapped
pub mod Scan
pub mod Remap
pub mod Split
pub mod Queue
pub mod Visit
pub mod Shape
pub mod Lifting
pub mod Total
pub mod Decode
use rellume.Prelude.{
  ℕ, zero, suc, ◌+◌, ◌-◌, ◌==◌, ltb, if◌then◌else◌, ◌&&◌, ◌||◌, not, Bool, true, false, Option,
  none, some, List, [], ◌∷◌, ◌++◌, length, get_elem?, set, ◌>>=◌,
}
use rellume.Instr.{InstrType, Instr, u64, end, op, pcrel?}

pub data DecodeStop : Type 0 where
  instr_stop basicblock_stop all_stop : DecodeStop

-- The three results of InstrFlags.
pub record Flow : Type 0 where
  pub breaks : Bool
  pub breaks_cond : Bool
  pub has_jmp_target : Bool

abbrev flow : Bool → Bool → Bool → Flow
flow b c t = record { breaks = b; breaks_cond = c; has_jmp_target = t }

-- InstrFlags
unfoldable pub instr_flags : InstrType → Flow
instr_flags InstrType.jo = flow false true true
instr_flags InstrType.jno = flow false true true
instr_flags InstrType.jc = flow false true true
instr_flags InstrType.jnc = flow false true true
instr_flags InstrType.jz = flow false true true
instr_flags InstrType.jnz = flow false true true
instr_flags InstrType.jbe = flow false true true
instr_flags InstrType.ja = flow false true true
instr_flags InstrType.js = flow false true true
instr_flags InstrType.jns = flow false true true
instr_flags InstrType.jp = flow false true true
instr_flags InstrType.jnp = flow false true true
instr_flags InstrType.jl = flow false true true
instr_flags InstrType.jge = flow false true true
instr_flags InstrType.jle = flow false true true
instr_flags InstrType.jg = flow false true true
instr_flags InstrType.jcxz = flow false true true
instr_flags InstrType.loop = flow false true true
instr_flags InstrType.loopz = flow false true true
instr_flags InstrType.loopnz = flow false true true
instr_flags InstrType.jmp = flow true false true
instr_flags InstrType.call = flow true false true
instr_flags InstrType.ret = flow true false false
instr_flags InstrType.syscall = flow true false false
instr_flags InstrType.int = flow true false false
instr_flags InstrType.int3 = flow true false false
instr_flags InstrType.into = flow true false false
instr_flags InstrType.ud0 = flow true false false
instr_flags InstrType.ud1 = flow true false false
instr_flags InstrType.ud2 = flow true false false
instr_flags InstrType.hlt = flow true false false
instr_flags t = flow false false false

abbrev is_call : InstrType → Bool
is_call InstrType.call = true
is_call t = false

-- A place in the code: the numbers of a block and of an instruction.
pub record Place : Type 0 where
  pub block : ℕ
  pub index : ℕ

-- A block: the numbers of its first instruction and of the one behind its last.
pub record Range : Type 0 where
  pub first : ℕ
  pub last : ℕ

-- The variables of Decode.
pub record DecodeState : Type 0 where
  pub addr_queue : List ℕ
  pub insts : List Instr
  pub blocks : List Range
  pub addr_map : ℕ → Option Place

abbrev pub update : (ℕ → Option Place) → ℕ → Place → ℕ → Option Place
update m a p = λ k. if a == k then some p else m k

-- What one turn of the inner loop does: leave it, with the entry of the address that was reached if
-- there is one, or go on at the next address.
pub data Turn : Type 0 where
  leave : Option Place → DecodeState → Turn
  go_on : ℕ → DecodeState → Turn

-- The state with a new instruction at the end.
unfoldable pub add_decoded : ℕ → Instr → DecodeState → DecodeState
add_decoded cur inst st = record st {
  addr_map = update st.addr_map cur (record { block = length st.blocks; index = length st.insts });
  insts = st.insts ++ inst ∷ [];
}

abbrev enqueue : List ℕ → DecodeState → DecodeState
enqueue addrs st = record st { addr_queue = st.addr_queue ++ addrs }

-- A memory reader gives the number of bytes that it says it has read, and the buffer.
module _ (memacc : ℕ → ℕ × List ℕ) (fd_decode : List ℕ → ℕ → Option Instr) (call_function : Bool)
    (stop : DecodeStop) where
  -- The instruction at an address, if its bytes can be read and decoded.
  unfoldable pub fetch : ℕ → Option Instr
  fetch addr =
      let (sz, buf) = memacc addr in
      if sz == 0 || ltb 15 sz then none else elim (fd_decode buf sz) [
        | none ↦ none
        | some inst ↦ some (record inst { address = addr })
      ]

  -- The addresses at which decoding goes on behind an instruction that ends a block.
  unfoldable pub successors : ℕ → Instr → List ℕ
  unfolding instr_flags
  successors cur inst =
      let f = instr_flags inst.ty in
      (if f.breaks_cond || is_call inst.ty && call_function then u64 (cur + inst.len) ∷ [] else [])
      ++ (if f.has_jmp_target && not (is_call inst.ty)
          then elim (pcrel? (op inst 0)) [ none ↦ [] | some off ↦ u64 (end inst + off) ∷ [] ]
          else [])

  -- What follows a new instruction.
  unfoldable pub turn_after : ℕ → Instr → DecodeState → Turn
  unfolding successors instr_flags
  turn_after cur inst st =
      let f = instr_flags inst.ty in
      elim stop [
        | instr_stop ↦ leave none st
        | basicblock_stop ↦
            if f.breaks || f.breaks_cond then leave none st else go_on (u64 (cur + inst.len)) st
        | all_stop ↦
            if f.breaks || f.breaks_cond
            then leave none (enqueue (successors cur inst) st)
            else go_on (u64 (cur + inst.len)) st
      ]

  unfoldable pub turn : ℕ → DecodeState → Turn
  unfolding fetch add_decoded turn_after
  turn cur st = elim (st.addr_map cur) [
    | some p ↦ leave (some p) st
    | none ↦ elim (fetch cur) [
      | none ↦ leave none st
      | some inst ↦ turn_after cur inst (add_decoded cur inst st)
    ]
  ]

  -- The inner loop; `none` means that the fuel has run out.
  unfoldable pub scan : ℕ → ℕ → DecodeState → Option (Option Place × DecodeState)
  unfolding turn
  scan zero cur st = none
  scan (suc fuel) cur st = elim (turn cur st) [
    | leave joined st' ↦ some (joined, st')
    | go_on next st' ↦ scan fuel next st'
  ]

-- The loop that moves the instructions from number j on, n of them, to a new block.
unfoldable pub remap : List Instr → ℕ → ℕ → ℕ → (ℕ → Option Place) → Option (ℕ → Option Place)
remap insts new_block j zero m = some m
remap insts new_block j (suc n) m = do
  inst ← get_elem? insts j
  remap insts new_block (suc j) n (update m inst.address (record { block = new_block; index = j }))

-- The block that decoding has run into is cut before the instruction that was reached. `none` is an
-- access out of bounds.
unfoldable pub split : Place → DecodeState → Option DecodeState
unfolding remap
split p st = do
  other ← get_elem? st.blocks p.block
  if other.first == p.index then some st else do
    let cut : List Range =
        set (st.blocks ++ record { first = p.index; last = other.last } ∷ []) p.block
          (record { first = other.first; last = p.index })
    m ← remap st.insts (length st.blocks) p.index (other.last - p.index) st.addr_map
    some (record st { blocks = cut; addr_map = m })

-- The block of the instructions from a number on, if there are any.
unfoldable pub close_block : ℕ → DecodeState → DecodeState
close_block start st =
    if length st.insts == start
    then st
    else record st { blocks = st.blocks ++ record { first = start; last = length st.insts } ∷ [] }

module _ (memacc : ℕ → ℕ × List ℕ) (fd_decode : List ℕ → ℕ → Option Instr) (call_function : Bool)
    (stop : DecodeStop) where
  -- The body of the outer loop, for an address of the queue.
  unfoldable pub visit : ℕ → ℕ → DecodeState → Option DecodeState
  unfolding scan close_block split
  visit fuel cur st = do
    (joined, st') ← scan memacc fd_decode call_function stop fuel cur st
    let closed = close_block (length st.insts) st'
    elim joined [ none ↦ some closed | some p ↦ split p closed ]

  -- The outer loop, with fuel for its turns and for those of the inner loop.
  unfoldable pub decode_loop : ℕ → ℕ → DecodeState → Option DecodeState
  unfolding visit
  decode_loop zero inner st = none
  decode_loop (suc outer) inner st = elim st.addr_queue [
    | [] ↦ some st
    | cur ∷ rest ↦ do
      st' ← visit inner cur (record st { addr_queue = rest })
      decode_loop outer inner st'
  ]
