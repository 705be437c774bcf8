-- ===== src/Lifter.antt =====
-- src/lifter-private.h, src/lifter*.cc: lifting one instruction, as steps over the register file of
-- the insert block and the emitted memory accesses and calls.
pub mod Monad
pub mod Operand
pub mod Flags
pub mod Arith
pub mod Shift
pub mod Bits
pub mod Vector
pub mod PartValue
pub mod PartStore
pub mod Action
pub mod Sse
pub mod Control
pub mod Dispatch
pub mod FlagLaws
pub mod FlagState
pub mod FlagCalc
pub mod FlagNums
pub mod FlagCond
pub mod Compare
pub mod FlagCorrect
pub mod CarryLoss
