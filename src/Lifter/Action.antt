-- ===== src/Lifter/Action.antt =====
-- src/lifter.cc: what the switch of Lifter::Lift does with an instruction type.
use rellume.Lifter.Monad.{Lift}

-- The default, or a step; a step that does nothing is `skip`.
pub data Action (V : Type 0) : Type 0 where
  unknown : Action V
  step : Lift V (Unit {0}) → Action V
