-- ===== src/Decoder/Lifting.antt =====
-- The end of Function::Decode in src/lldecoder.cc, where the blocks are lifted, and the whole
-- function. Function::AddInst is a parameter, with the function under construction as its state.
use rellume.Prelude.{
  ℕ, zero, suc, ◌-◌, if◌then◌else◌, Bool, true, false, Option, none, some, List, [], ◌∷◌, get_elem?,
  ◌>>=◌,
}
use rellume.Instr.{Instr}
use rellume.Decoder.{DecodeStop, Range, DecodeState, decode_loop}

-- What the loops do: return the error code 1, or go on with the variable first_inst.
pub data Lifted (S : Type 0) : Type 0 where
  failed : S → Lifted S
  went_on : Bool → S → Lifted S

-- The state of Decode before its loops.
abbrev pub initial : ℕ → DecodeState
initial addr = record { addr_queue = addr ∷ []; insts = []; blocks = []; addr_map = λ a. none }

module _ {S : Type 0} (add_inst : ℕ → Instr → S → Bool × S) where
  -- The loop over the instructions of a block, `n` of them from number `j` on; `none` is an access
  -- out of bounds.
  unfoldable pub lift_insts : List Instr → ℕ → ℕ → ℕ → Bool → S → Option (Lifted S)
  lift_insts insts block_addr j zero first_inst s = some (went_on first_inst s)
  lift_insts insts block_addr j (suc n) first_inst s = do
    inst ← get_elem? insts j
    let (ok, s') = add_inst block_addr inst s
    elim ok [
      | true ↦ lift_insts insts block_addr (suc j) n false s'
      | false ↦ some (if first_inst then failed s' else went_on first_inst s')
    ]

  -- The loop over the blocks.
  unfoldable pub lift_blocks : List Instr → List Range → Bool → S → Option (Lifted S)
  unfolding lift_insts
  lift_blocks insts [] first_inst s = some (went_on first_inst s)
  lift_blocks insts (r ∷ rest) first_inst s = do
    begin ← get_elem? insts r.first
    res ← lift_insts insts begin.address r.first (r.last - r.first) first_inst s
    elim res [
      | failed s' ↦ some (failed s')
      | went_on first_inst' s' ↦ lift_blocks insts rest first_inst' s'
    ]

  -- The error code of Decode.
  abbrev pub error_code : Lifted S → ℕ × S
  error_code (failed s) = (1, s)
  error_code (went_on first_inst s) = (if first_inst then 1 else 0, s)

  -- Function::Decode, with fuel for its loops.
  unfoldable pub decode :
      (ℕ → ℕ × List ℕ)
      → (List ℕ → ℕ → Option Instr)
      → Bool
      → DecodeStop
      → ℕ
      → ℕ
      → ℕ
      → S
      → Option (ℕ × S)
  unfolding lift_blocks
  decode memacc fd_decode call_function stop outer inner addr s = do
    st ← decode_loop memacc fd_decode call_function stop outer inner (initial addr)
    res ← lift_blocks st.insts st.blocks true s
    some (error_code res)
