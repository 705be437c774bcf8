-- ===== src/Ir/Meaning.antt =====
-- What the lifter relies on of LLVM: the language reference on integers, as the laws of a function
-- that gives each value of the IR the number that it has at run time. Nothing is said of poison:
-- shifts have a law only for amounts below the width.
pub mod Vector
pub mod Constant
pub mod ConstantVector
use rellume.Prelude.{
  ℕ, ◌+◌, ◌-◌, ◌*◌, ◌/◌, ◌%◌, ◌^◌, ◌≤◌, ◌<◌, ◌≡◌, ◌==◌, ltb, leb, bit, if◌then◌else◌, not, Bool,
  true, false, List, [], ◌∷◌, bit_and, bit_or, bit_xor, zero, suc,
}
use rellume.Ir.{Builder, IrType, int, BinaryOp, CastOp, Predicate, Intrinsic}

-- The sign bit of a w-bit pattern.
abbrev pub negative : ℕ → ℕ → Bool
negative w n = leb (2 ^ w) (2 * n)

-- `icmp slt` on two w-bit patterns.
abbrev pub signed_lt : ℕ → ℕ → ℕ → Bool
signed_lt w m n =
    if negative w m
    then (if negative w n then ltb m n else true)
    else (if negative w n then false else ltb m n)

-- The sum and the difference of two w-bit patterns, read as signed numbers, leave the range of w
-- bits. For the sum of two negative numbers this is m + n - 2 * 2 ^ w < - 2 ^ (w - 1), doubled.
abbrev pub signed_add_overflows : ℕ → ℕ → ℕ → Bool
signed_add_overflows w m n =
    if negative w m
    then (if negative w n then ltb (2 * (m + n)) (3 * 2 ^ w) else false)
    else (if negative w n then false else leb (2 ^ w) (2 * (m + n)))

abbrev pub signed_sub_overflows : ℕ → ℕ → ℕ → Bool
signed_sub_overflows w m n =
    if negative w m
    then (if negative w n then false else ltb (2 * m) (2 * n + 2 ^ w))
    else (if negative w n then leb (2 * n) (2 * m + 2 ^ w) else false)

abbrev pub holds : Predicate → ℕ → ℕ → ℕ → Bool
holds Predicate.eq w m n = m == n
holds Predicate.ne w m n = not (m == n)
holds Predicate.ult w m n = ltb m n
holds Predicate.slt w m n = signed_lt w m n
holds Predicate.ugt w m n = ltb n m
holds Predicate.sgt w m n = signed_lt w n m

-- The number of ones among the lowest k digits.
abbrev pub ones : ℕ → ℕ → ℕ
ones zero n = 0
ones (suc k) n = n % 2 + ones k (n / 2)

module _ {V : Type 0} (b : Builder V) where
  open b use {ty, const_int, null, bin, create_not, create_neg, icmp, select, cast, intrinsic}
  open b use {extract_value}

  pub record Meaning : Type 0 where
    pub den : V → ℕ
    pub den_lt : (x : V) (w : ℕ) → ty x ≡ int w → den x < 2 ^ w
    pub const_int_ty : (w n : ℕ) → ty (const_int w n) ≡ int w
    pub const_int_den : (w n : ℕ) → den (const_int w n) ≡ n % 2 ^ w
    pub null_ty : (t : IrType) → ty (null t) ≡ t
    pub null_den : (w : ℕ) → den (null (int w)) ≡ 0
    pub bin_ty : (o : BinaryOp) (x y : V) → ty (bin o x y) ≡ ty x
    pub add_den :
        (x y : V) (w : ℕ)
        → ty x ≡ int w
        → ty y ≡ int w
        → den (bin BinaryOp.add x y) ≡ (den x + den y) % 2 ^ w
    pub sub_den :
        (x y : V) (w : ℕ)
        → ty x ≡ int w
        → ty y ≡ int w
        → den (bin BinaryOp.sub x y) ≡ (den x + 2 ^ w - den y) % 2 ^ w
    pub mul_den :
        (x y : V) (w : ℕ)
        → ty x ≡ int w
        → ty y ≡ int w
        → den (bin BinaryOp.mul x y) ≡ den x * den y % 2 ^ w
    pub and_den :
        (x y : V) (w : ℕ)
        → ty x ≡ int w
        → ty y ≡ int w
        → den (bin BinaryOp.and x y) ≡ bit_and (den x) (den y)
    pub or_den :
        (x y : V) (w : ℕ)
        → ty x ≡ int w
        → ty y ≡ int w
        → den (bin BinaryOp.or x y) ≡ bit_or (den x) (den y)
    pub xor_den :
        (x y : V) (w : ℕ)
        → ty x ≡ int w
        → ty y ≡ int w
        → den (bin BinaryOp.xor x y) ≡ bit_xor (den x) (den y)
    pub shl_den :
        (x y : V) (w : ℕ)
        → ty x ≡ int w
        → den y < w
        → den (bin BinaryOp.shl x y) ≡ den x * 2 ^ den y % 2 ^ w
    pub lshr_den :
        (x y : V) (w : ℕ)
        → ty x ≡ int w
        → den y < w
        → den (bin BinaryOp.lshr x y) ≡ den x / 2 ^ den y
    pub not_ty : (x : V) → ty (create_not x) ≡ ty x
    pub not_den : (x : V) (w : ℕ) → ty x ≡ int w → den (create_not x) ≡ 2 ^ w - 1 - den x
    pub neg_ty : (x : V) → ty (create_neg x) ≡ ty x
    pub neg_den : (x : V) (w : ℕ) → ty x ≡ int w → den (create_neg x) ≡ (2 ^ w - den x) % 2 ^ w
    pub icmp_ty : (p : Predicate) (x y : V) (w : ℕ) → ty x ≡ int w → ty (icmp p x y) ≡ int 1
    pub icmp_den :
        (p : Predicate) (x y : V) (w : ℕ)
        → ty x ≡ int w
        → ty y ≡ int w
        → den (icmp p x y) ≡ bit (holds p w (den x) (den y))
    pub select_ty : (c x y : V) → ty y ≡ ty x → ty (select c x y) ≡ ty x
    pub select_den : (c x y : V) → den (select c x y) ≡ (if den c == 1 then den x else den y)
    pub cast_ty : (c : CastOp) (x : V) (t : IrType) → ty (cast c x t) ≡ t
    pub trunc_den :
        (x : V) (w n : ℕ) → ty x ≡ int w → n ≤ w → den (cast CastOp.trunc x (int n)) ≡ den x % 2 ^ n
    pub zext_den :
        (x : V) (w n : ℕ) → ty x ≡ int w → w ≤ n → den (cast CastOp.zext x (int n)) ≡ den x
    pub trunc_or_bitcast_den :
        (x : V) (w n : ℕ)
        → ty x ≡ int w
        → n ≤ w
        → den (cast CastOp.trunc_or_bitcast x (int n)) ≡ den x % 2 ^ n
    pub ctpop_ty : (x : V) → ty (intrinsic Intrinsic.ctpop (x ∷ [])) ≡ ty x
    pub ctpop_den :
        (x : V) (w : ℕ) → ty x ≡ int w → den (intrinsic Intrinsic.ctpop (x ∷ [])) ≡ ones w (den x)
    pub ssa_copy_ty : (x : V) → ty (intrinsic Intrinsic.ssa_copy (x ∷ [])) ≡ ty x
    pub ssa_copy_den : (x : V) → den (intrinsic Intrinsic.ssa_copy (x ∷ [])) ≡ den x
    pub sadd_ty :
        (x y : V)
        → ty (extract_value (intrinsic Intrinsic.sadd_with_overflow (x ∷ y ∷ [])) 1) ≡ int 1
    pub sadd_den :
        (x y : V) (w : ℕ)
        → ty x ≡ int w
        → ty y ≡ int w
        → den (extract_value (intrinsic Intrinsic.sadd_with_overflow (x ∷ y ∷ [])) 1)
          ≡ bit (signed_add_overflows w (den x) (den y))
