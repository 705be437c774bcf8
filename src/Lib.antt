-- ===== src/Lib.antt =====
-- Rellume lifts x86-64 machine code to LLVM IR. The decoder (src/lldecoder.cc) collects the basic
-- blocks of a function; the lifter (src/lifter*.cc) translates one instruction after the other
-- over a register file (src/regfile.cc), which keeps the current IR values of the registers in
-- several facets (src/facet.cc), such as the low half or the pointer form of a register; a calling
-- convention (src/callconv.cc) moves the register file to the CPU struct and back at calls and
-- returns. This library models the decoder and the translation of the general-purpose
-- and the SSE instructions.
--
-- The files and the code that they are about:
--   Prelude           lists, tests and binary digits on native numbers
--   Facet             src/facet.h, src/facet.inc, src/facet.cc: one constructor for each row;
--                     in_bits, vnt, size and resolve are In, Vnt, Size and Resolve
--   Register          src/regfile.h: X86Reg; RegisterSetBitIdx of src/regfile.cc
--   Instr             src/instr.h: an instruction and its operands
--   Ir                the parameter of the model: what the lifter asks of an llvm::IRBuilder and of
--                     values and types; facet_type and from_type are Facet::Type and FromType
--   Ir/Meaning        what LLVM documents on integer operations, as laws of a function den that
--                     gives a value its number; Ir/Meaning/Vector does so for the elements of
--                     vectors, and Ir/Meaning/Constant and Ir/Meaning/ConstantVector are a builder
--                     of constants
--   RegFile           src/regfile.cc: RegFile::impl; RegFile/Access is GetReg and SetReg
--   CpuStruct         data/rellume/cpustruct.json: the fields of the CPU struct
--   Decoder           src/lldecoder.cc: InstrFlags and the loops of Function::Decode; Decoder/Places,
--                     Decoder/Unmapped and Decoder/Scan are about the inner loop, Decoder/Remap
--                     and Decoder/Split about the cut of a block, Decoder/Visit, Decoder/Queue,
--                     Decoder/Shape and Decoder/Total about the outer loop; Decoder/Lifting is the
--                     end of Function::Decode, where AddInst lifts the blocks, and Decoder/Decode is
--                     about the whole function
--   Function          src/basicblock.h, src/basicblock.cc, src/function.cc: blocks, branches, AddInst,
--                     ResolveAddr and the begin of Lift; blocks are numbers in a store.
--                     Function/Edges and Function/Linked are about the edges, Function/Resolve is
--                     about the addresses of the blocks
--   Lifter/Monad      src/lifter-private.h, src/config.h, src/function-info.h: the state
--                     and the configuration of LifterBase, and a monad of its steps
--   Lifter/Operand    src/lifter-operand.cc, with the addresses in Lifter/Operand/Address
--   Lifter/Flags      src/lifter-flags.cc
--   Lifter/Arith, Lifter/Shift, Lifter/Bits, Lifter/Control
--                     src/lifter-gp.cc, one function lift_x for each handler LiftX
--   Lifter/Vector     src/lifter-operand.cc: OpStoreVec
--   Lifter/Sse/State, Lifter/Sse/Move, Lifter/Sse/Float, Lifter/Sse/Shuffle, Lifter/Sse/Packed,
--   Lifter/Sse/Saturate
--                     src/lifter-sse.cc, one function for each handler, with the masks of its
--                     shuffles in Lifter/Sse/Masks
--   Lifter/Sse/Select, Lifter/Sse/SelectFloat
--                     src/lifter.cc: the rows of the switch that call src/lifter-sse.cc
--   Lifter/Action, Lifter/Dispatch
--                     src/lifter.cc: Lifter::Lift
--   CallConv          src/callconv.cc: Pack, Unpack, Return, UnpackParams and Call
--   Facet/Laws, Register/Laws, CallConv/Laws, Lifter/FlagLaws, Lifter/FlagState, Lifter/FlagCalc,
--   Lifter/CarryLoss, Lifter/FlagNums, Lifter/PartValue, Lifter/PartStore, Lifter/FlagCond, Lifter/FlagCorrect, Lifter/Compare, Lifter/Sse/Lanes,
--   Lifter/Sse/SaturateNums, Lifter/Sse/SaturateArith, Lifter/Sse/SaturateLaws,
--   Lifter/Sse/PackedLaws, Lifter/Sse/ShuffleLaws, Lifter/Sse/MaskLaws,
--   Lifter/Sse/WordShuffle
--                     lemmas and theorems; Examples, SseExamples, FunctionExamples and
--                     DecoderExamples apply them to
--                     concrete values
--
-- LLVM is not modelled. A record Builder of its functions is a parameter of all definitions, and the
-- theorems on numbers have the laws Meaning or VectorMeaning as a hypothesis. A handler is a function from a state
-- to the value it computes and a state, or none where an assertion of the code fails. The state
-- has the register file of the insert block and the list of the memory accesses, calls and
-- returns emitted so far; pure IR values are not listed. A w-bit integer is its pattern, a number
-- below 2 ^ w. The loops of the decoder run on fuel; each turn of the inner loop enters an address
-- of 64 bits that had no entry before, so that more than 2 ^ 64 turns are enough for it, and adds at
-- most two addresses to the queue, so that 3 * 2 ^ 64 + 2 turns are enough for the outer loop.
--
-- Not modelled: string instructions, a parameter of the dispatch; PHI nodes and what Lift does behind the branches, and the removal of stores by OptimizePacks; the wrapper and
-- the passes of src/transforms.cc, the C interface of src/rellume.cc, poison values, metadata and
-- fast-math flags.
pub mod Prelude
pub mod Facet
pub mod Register
pub mod Instr
pub mod Ir
pub mod RegFile
pub mod CpuStruct
pub mod Decoder
pub mod Function
pub mod Lifter
pub mod CallConv
pub mod Examples
pub mod SseExamples
pub mod FunctionExamples
pub mod DecoderExamples
