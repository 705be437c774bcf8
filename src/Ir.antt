-- ===== src/Ir.antt =====
-- What the lifter uses of LLVM: the values of the IR under construction and the calls of the
-- IRBuilder that make them. LLVM is not modelled; a builder is a parameter of the model.
pub mod Meaning
use rellume.Prelude.{ℕ, ◌*◌, ◌==◌, ◌&&◌, Bool, true, false, Option, none, some, List, ◌=<<◌}
use rellume.Facet.{Facet, in_bits, vnt}
use rellume.Register.{X86Reg}

-- The types that the sources ask LLVM for: iN, float, double, pointers to an element type in an
-- address space, and vectors of some elements.
pub data IrType : Type 0 where
  int : ℕ → IrType
  float double : IrType
  ptr : IrType → ℕ → IrType
  vector : IrType → ℕ → IrType

-- Types are unique in LLVM, so a comparison of the pointers compares the types.
unfoldable pub type_eq : IrType → IrType → Bool
type_eq (int n) (int m) = n == m
type_eq float float = true
type_eq double double = true
type_eq (ptr t n) (ptr u m) = n == m && type_eq t u
type_eq (vector t n) (vector u m) = n == m && type_eq t u
type_eq t u = false

-- Type::getPrimitiveSizeInBits, which is 0 for a pointer.
abbrev pub primitive_bits : IrType → ℕ
primitive_bits (int n) = n
primitive_bits float = 32
primitive_bits double = 64
primitive_bits (ptr t n) = 0
primitive_bits (vector t n) = n * primitive_bits t

-- getVectorElementType and getVectorNumElements, whose assertion fails for any other type.
abbrev pub vector_parts : IrType → Option (IrType × ℕ)
vector_parts (vector t n) = some (t, n)
vector_parts t = none

abbrev pub is_pointer : IrType → Bool
is_pointer (ptr t n) = true
is_pointer t = false

-- getIntegerBitWidth, whose assertion fails for any other type.
abbrev pub int_width : IrType → Option ℕ
int_width (int n) = some n
int_width t = none

-- Facet::Type
unfoldable pub facet_type : Facet → Option IrType
facet_type Facet.i8 = some (int 8)
facet_type Facet.i16 = some (int 16)
facet_type Facet.i32 = some (int 32)
facet_type Facet.i64 = some (int 64)
facet_type Facet.i128 = some (int 128)
facet_type Facet.f32 = some float
facet_type Facet.f64 = some double
facet_type Facet.v1i8 = some (vector (int 8) 1)
facet_type Facet.v2i8 = some (vector (int 8) 2)
facet_type Facet.v4i8 = some (vector (int 8) 4)
facet_type Facet.v8i8 = some (vector (int 8) 8)
facet_type Facet.v16i8 = some (vector (int 8) 16)
facet_type Facet.v1i16 = some (vector (int 16) 1)
facet_type Facet.v2i16 = some (vector (int 16) 2)
facet_type Facet.v4i16 = some (vector (int 16) 4)
facet_type Facet.v8i16 = some (vector (int 16) 8)
facet_type Facet.v1i32 = some (vector (int 32) 1)
facet_type Facet.v2i32 = some (vector (int 32) 2)
facet_type Facet.v4i32 = some (vector (int 32) 4)
facet_type Facet.v1i64 = some (vector (int 64) 1)
facet_type Facet.v2i64 = some (vector (int 64) 2)
facet_type Facet.v1f32 = some (vector float 1)
facet_type Facet.v2f32 = some (vector float 2)
facet_type Facet.v4f32 = some (vector float 4)
facet_type Facet.v1f64 = some (vector double 1)
facet_type Facet.v2f64 = some (vector double 2)
facet_type Facet.ptr = some (ptr (int 8) 0)
facet_type Facet.i8h = some (int 8)
facet_type Facet.zf = some (int 1)
facet_type Facet.sf = some (int 1)
facet_type Facet.pf = some (int 1)
facet_type Facet.cf = some (int 1)
facet_type Facet.of = some (int 1)
facet_type Facet.af = some (int 1)
facet_type Facet.df = some (int 1)
facet_type f = none

-- Facet::FromType. A vector of vectors does not exist in LLVM; the recursion follows the type.
unfoldable pub from_type : IrType → Option Facet
unfolding in_bits
from_type (int n) = in_bits n
from_type float = some Facet.f32
from_type double = some Facet.f64
from_type (ptr t n) = none
from_type (vector t n) = vnt n =<< from_type t

-- llvm::Instruction::BinaryOps
pub data BinaryOp : Type 0 where
  add sub mul udiv sdiv urem srem shl lshr ashr and or xor : BinaryOp
  fadd fsub fmul fdiv : BinaryOp

-- llvm::Instruction::CastOps, and three casts that LLVM chooses: two of the IRBuilder by the widths,
-- and the one of CastInst::getCastOpcode by the types, both taken as signed.
pub data CastOp : Type 0 where
  trunc zext sext bitcast ptrtoint inttoptr : CastOp
  trunc_or_bitcast zext_or_trunc signed_convert : CastOp

-- llvm::CmpInst::Predicate
pub data Predicate : Type 0 where
  eq ne ult slt ugt sgt : Predicate

pub data FloatPredicate : Type 0 where
  oeq ogt olt ole ord uno ueq ult ugt uge une : FloatPredicate

-- llvm::Intrinsic::ID
pub data Intrinsic : Type 0 where
  ctpop cttz ctlz bswap fshl fshr sadd_with_overflow smul_with_overflow umul_with_overflow ssa_copy
        sqrt :
      Intrinsic

pub record Builder (V : Type 0) : Type 0 where
  -- Value::getType
  pub ty : V → IrType
  pub is_phi : V → Bool
  -- dyn_cast<BinaryOperator> with the opcode Add, dyn_cast<ConstantInt>, dyn_cast<SelectInst>
  pub as_add : V → Option (V × V)
  pub as_const : V → Option ℕ
  pub as_select : V → Option (V × V × V)
  -- isa<Constant>, and isNullValue of a constant
  pub is_constant : V → Bool
  pub is_null : V → Bool
  pub const_int : ℕ → ℕ → V
  pub null : IrType → V
  pub undef : IrType → V
  pub bin : BinaryOp → V → V → V
  pub create_not : V → V
  pub create_neg : V → V
  pub icmp : Predicate → V → V → V
  pub select : V → V → V → V
  pub cast : CastOp → V → IrType → V
  pub gep : V → V → V
  pub intrinsic : Intrinsic → List V → V
  pub extract_value : V → ℕ → V
  pub extract_element : V → ℕ → V
  pub insert_element : V → V → ℕ → V
  pub shuffle : V → V → List ℕ → V
  pub fcmp : FloatPredicate → V → V → V
  -- CreateVectorSplat, and getIntegerValue of a vector type
  pub splat : ℕ → V → V
  pub integer_value : IrType → ℕ → V
  -- The PHI node that is created at the begin of a block for a register and a facet.
  pub phi : ℕ → X86Reg → Facet → IrType → V
  -- The result of the n-th load or call that is emitted.
  pub loaded : ℕ → IrType → V → V
  pub called : ℕ → ℕ → V
  -- The value of an argument of the lifted function.
  pub argument : ℕ → V
