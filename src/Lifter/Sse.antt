-- ===== src/Lifter/Sse.antt =====
-- src/lifter-sse.cc, and the part of the switch of src/lifter.cc that calls it.
pub mod Masks
pub mod State
pub mod Move
pub mod Float
pub mod Shuffle
pub mod Packed
pub mod Saturate
pub mod SaturateNums
pub mod SaturateArith
pub mod Lanes
pub mod SaturateLaws
pub mod PackedLaws
pub mod ShuffleLaws
pub mod MaskLaws
pub mod WordShuffle
pub mod SelectFloat
pub mod Select
