-- ===== src/Ir/Meaning/Vector.antt =====
-- What the lifter relies on of LLVM's integer operations on vectors: they work on each element, as
-- the laws of a function that gives each element of a vector the number that it has at run time.
-- An element of another type is its pattern of bits, which a shuffle moves.
use rellume.Prelude.{
  ℕ, ◌+◌, ◌-◌, ◌*◌, ◌/◌, ◌%◌, ◌^◌, ◌≤◌, ◌<◌, ◌≡◌, ◌==◌, ltb, bit, if◌then◌else◌, List, some, length,
  get_elem?,
}
use rellume.Ir.{Builder, IrType, int, vector, BinaryOp, CastOp, Predicate}
use rellume.Ir.Meaning.{Meaning, negative, holds}

-- A w-bit pattern extended by its sign to v bits, and shifted right with its sign.
abbrev pub sign_extend : ℕ → ℕ → ℕ → ℕ
sign_extend w v m = if negative w m then m + 2 ^ v - 2 ^ w else m

abbrev pub shift_signed : ℕ → ℕ → ℕ → ℕ
shift_signed w m k = if negative w m then 2 ^ w - 1 - (2 ^ w - 1 - m) / 2 ^ k else m / 2 ^ k

module _ {V : Type 0} (b : Builder V) (m : Meaning b) where
  open b use {ty, null, bin, icmp, select, cast, splat, integer_value, shuffle}
  open m use {den}

  pub record VectorMeaning : Type 0 where
    pub lane : V → ℕ → ℕ
    pub lane_lt : (x : V) (w n i : ℕ) → ty x ≡ vector (int w) n → i < n → lane x i < 2 ^ w
    pub null_lane : (w n i : ℕ) → i < n → lane (null (vector (int w) n)) i ≡ 0
    pub add_lane :
        (x y : V) (w n i : ℕ)
        → ty x ≡ vector (int w) n
        → ty y ≡ vector (int w) n
        → i < n
        → lane (bin BinaryOp.add x y) i ≡ (lane x i + lane y i) % 2 ^ w
    pub sub_lane :
        (x y : V) (w n i : ℕ)
        → ty x ≡ vector (int w) n
        → ty y ≡ vector (int w) n
        → i < n
        → lane (bin BinaryOp.sub x y) i ≡ (lane x i + 2 ^ w - lane y i) % 2 ^ w
    pub mul_lane :
        (x y : V) (w n i : ℕ)
        → ty x ≡ vector (int w) n
        → ty y ≡ vector (int w) n
        → i < n
        → lane (bin BinaryOp.mul x y) i ≡ lane x i * lane y i % 2 ^ w
    pub shl_lane :
        (x y : V) (w n i : ℕ)
        → ty x ≡ vector (int w) n
        → ty y ≡ vector (int w) n
        → i < n
        → lane y i < w
        → lane (bin BinaryOp.shl x y) i ≡ lane x i * 2 ^ lane y i % 2 ^ w
    pub lshr_lane :
        (x y : V) (w n i : ℕ)
        → ty x ≡ vector (int w) n
        → ty y ≡ vector (int w) n
        → i < n
        → lane y i < w
        → lane (bin BinaryOp.lshr x y) i ≡ lane x i / 2 ^ lane y i
    pub ashr_lane :
        (x y : V) (w n i : ℕ)
        → ty x ≡ vector (int w) n
        → ty y ≡ vector (int w) n
        → i < n
        → lane y i < w
        → lane (bin BinaryOp.ashr x y) i ≡ shift_signed w (lane x i) (lane y i)
    pub trunc_lane :
        (x : V) (w v n i : ℕ)
        → ty x ≡ vector (int w) n
        → v ≤ w
        → i < n
        → lane (cast CastOp.trunc x (vector (int v) n)) i ≡ lane x i % 2 ^ v
    pub zext_lane :
        (x : V) (w v n i : ℕ)
        → ty x ≡ vector (int w) n
        → w ≤ v
        → i < n
        → lane (cast CastOp.zext x (vector (int v) n)) i ≡ lane x i
    pub sext_lane :
        (x : V) (w v n i : ℕ)
        → ty x ≡ vector (int w) n
        → w ≤ v
        → i < n
        → lane (cast CastOp.sext x (vector (int v) n)) i ≡ sign_extend w v (lane x i)
    pub icmp_vector :
        (p : Predicate) (x y : V) (w n : ℕ)
        → ty x ≡ vector (int w) n
        → ty (icmp p x y) ≡ vector (int 1) n
    pub icmp_lane :
        (p : Predicate) (x y : V) (w n i : ℕ)
        → ty x ≡ vector (int w) n
        → ty y ≡ vector (int w) n
        → i < n
        → lane (icmp p x y) i ≡ bit (holds p w (lane x i) (lane y i))
    pub select_lane :
        (c x y : V) (n i : ℕ)
        → ty c ≡ vector (int 1) n
        → ty y ≡ ty x
        → i < n
        → lane (select c x y) i ≡ (if lane c i == 1 then lane x i else lane y i)
    pub select_whole :
        (c x y : V) (i : ℕ)
        → ty c ≡ int 1
        → ty y ≡ ty x
        → lane (select c x y) i ≡ (if den c == 1 then lane x i else lane y i)
    pub splat_ty : (n : ℕ) (x : V) (w : ℕ) → ty x ≡ int w → ty (splat n x) ≡ vector (int w) n
    pub splat_lane : (n : ℕ) (x : V) (w i : ℕ) → ty x ≡ int w → i < n → lane (splat n x) i ≡ den x
    pub integer_value_ty : (t : IrType) (k : ℕ) → ty (integer_value t k) ≡ t
    pub integer_value_lane :
        (w n k i : ℕ) → i < n → lane (integer_value (vector (int w) n) k) i ≡ k % 2 ^ w
    pub shuffle_ty :
        (x y : V) (mask : List ℕ) (t : IrType) (n : ℕ)
        → ty x ≡ vector t n
        → ty (shuffle x y mask) ≡ vector t (length mask)
    pub shuffle_lane :
        (x y : V) (mask : List ℕ) (t : IrType) (n i k : ℕ)
        → ty x ≡ vector t n
        → ty y ≡ vector t n
        → get_elem? mask i ≡ some k
        → k < 2 * n
        → lane (shuffle x y mask) i ≡ (if ltb k n then lane x k else lane y (k - n))
