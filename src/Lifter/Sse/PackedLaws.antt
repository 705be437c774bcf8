-- ===== src/Lifter/Sse/PackedLaws.antt =====
-- The shifts and averages of src/lifter-sse.cc on each element.
use native.Mathlib.Nat.{mod-eq_of_lt, one-le-pow, mul-le-mul_left}
use rellume.Prelude.{
  ℕ, ◌+◌, ◌-◌, ◌*◌, ◌/◌, ◌%◌, ◌^◌, ◌≤◌, ◌<◌, ◌≡◌, ◌==◌, ltb, bit, if◌then◌else◌, Bool, true, false,
  some, refl, ap, ◌∙◌, sym, arith,
}
use rellume.Prelude.Bits.{lt-two-pow}
use rellume.Facet.{Facet}
use rellume.Instr.{Instr, op}
use rellume.Ir.{Builder, IrType, int, vector, BinaryOp, CastOp, Predicate}
use rellume.Ir.Meaning.{Meaning}
use rellume.Ir.Meaning.Vector.{VectorMeaning, shift_signed}
use rellume.Lifter.Monad.{LiftState, Config, ◌>>=◌}
use rellume.Lifter.Operand.{op_load}
use rellume.Lifter.Vector.{store_vec}
use rellume.Lifter.Sse.Packed.{
  is_ashr, shift_elements, average, lift_sse_pshift_element, lift_sse_pavg,
}
use rellume.Lifter.Sse.SaturateNums.{double_pow}
use rellume.Lifter.Sse.Lanes.{if_bit}

-- A sum of two numbers of w bits and a carry fits into 2w bits.
pow_twice : (w : ℕ) → 1 ≤ w → 2 ^ w * 2 ≤ 2 ^ (w * 2)
pow_twice w le = rw (double_pow w) (mul-le-mul_left (2 ^ w) (omega (arith, lt-two-pow w)))

sum_lt : (w s : ℕ) → 1 ≤ w → s < 2 ^ w * 2 → s < 2 ^ (w * 2)
sum_lt w s le lt = omega (arith, pow_twice w le)

average_nums :
    (w a c : ℕ)
    → 1 ≤ w
    → a < 2 ^ w
    → c < 2 ^ w
    → ((a + c) % 2 ^ (w * 2) + 1) % 2 ^ (w * 2) / 2 ^ 1 % 2 ^ w ≡ (a + c + 1) / 2
average_nums w a c le lta ltc =
    rw
      (
        mod-eq_of_lt (sum_lt w (a + c) le (omega arith)),
        mod-eq_of_lt (sum_lt w (a + c + 1) le (omega arith)),
      )
      (mod-eq_of_lt (omega arith))

abbrev pub is_shift : BinaryOp → Bool
is_shift BinaryOp.shl = true
is_shift BinaryOp.lshr = true
is_shift BinaryOp.ashr = true
is_shift o = false

-- A number of w bits, shifted by any amount: a logical shift by w or more gives 0, an arithmetic one
-- the sign at all places.
abbrev pub shifted : BinaryOp → ℕ → ℕ → ℕ → ℕ
shifted BinaryOp.shl w x k = if ltb k w then x * 2 ^ k % 2 ^ w else 0
shifted BinaryOp.lshr w x k = if ltb k w then x / 2 ^ k else 0
shifted BinaryOp.ashr w x k = shift_signed w x (if ltb k w then k else w - 1)
shifted o w x k = x

-- Equal choices.
either :
    (c : Bool) {x y k l : ℕ}
    → (c ≡ true → x ≡ k)
    → y ≡ l
    → (if c then x else y) ≡ (if c then k else l)
either true f g = f refl
either false f g = g

module _ {V : Type 0} (b : Builder V) (m : Meaning b) (vm : VectorMeaning b m) where
  open b use {ty, bin, icmp, select, cast, splat, const_int, null}
  open m use {den}
  open vm use {lane}

  average_lane :
      (w n i : ℕ) (x y : V)
      → 1 ≤ w
      → ty x ≡ vector (int w) n
      → ty y ≡ vector (int w) n
      → i < n
      → lane (average b w n x y) i ≡ (lane x i + lane y i + 1) / 2
  unfolding average
  average_lane w n i x y le tx ty_y lt =
      let wide = vector (int (w * 2)) n in
      let one = const_int (w * 2) 1 in
      let ext1 = cast CastOp.zext x wide in
      let ext2 = cast CastOp.zext y wide in
      let sum = bin BinaryOp.add ext1 ext2 in
      let more = bin BinaryOp.add sum (splat n one) in
      let t1 : ty ext1 ≡ wide = m.cast_ty _ x wide in
      let t2 : ty ext2 ≡ wide = m.cast_ty _ y wide in
      let tsum : ty sum ≡ wide = m.bin_ty _ ext1 ext2 ∙ t1 in
      let tones : ty (splat n one) ≡ wide = vm.splat_ty n one (w * 2) (m.const_int_ty (w * 2) 1) in
      let tmore : ty more ≡ wide = m.bin_ty _ sum _ ∙ tsum in
      let eone : lane (splat n one) i ≡ 1 =
        vm.splat_lane n one (w * 2) i (m.const_int_ty (w * 2) 1) lt
        ∙ m.const_int_den (w * 2) 1
        ∙ mod-eq_of_lt (sum_lt w 1 le (omega (arith, one-le-pow w 2))) in
      let esum : lane sum i ≡ (lane x i + lane y i) % 2 ^ (w * 2) =
        vm.add_lane ext1 ext2 (w * 2) n i t1 t2 lt
        ∙ rw
            (
              vm.zext_lane x w (w * 2) n i tx (omega arith) lt,
              vm.zext_lane y w (w * 2) n i ty_y (omega arith) lt,
            )
            refl in
      let emore : lane more i ≡ ((lane x i + lane y i) % 2 ^ (w * 2) + 1) % 2 ^ (w * 2) =
        vm.add_lane sum (splat n one) (w * 2) n i tsum tones lt ∙ rw (esum, eone) refl in
      let eshift : lane (bin BinaryOp.lshr more (splat n one)) i ≡ lane more i / 2 ^ 1 =
        vm.lshr_lane more (splat n one) (w * 2) n i tmore tones lt (rw eone (omega arith))
        ∙ ap (λ (k : ℕ). lane more i / 2 ^ k) eone in
      ap (λ (t : IrType). lane (cast CastOp.trunc (bin BinaryOp.lshr more (splat n one)) t) i) tx
      ∙ vm.trunc_lane _ (w * 2) w n i (m.bin_ty _ more _ ∙ tmore) (omega arith) lt
      ∙ ap (λ (k : ℕ). k % 2 ^ w) (eshift ∙ ap (λ (k : ℕ). k / 2 ^ 1) emore)
      ∙ average_nums w (lane x i) (lane y i) le (vm.lane_lt x w n i tx lt)
          (vm.lane_lt y w n i ty_y lt)

  -- The amount of a shift in each element.
  amount_lane :
      (w n i : ℕ) (k : V)
      → ty k ≡ int 64
      → w ≤ 64
      → den k < 2 ^ w
      → i < n
      → lane (splat n (cast CastOp.trunc k (int w))) i ≡ den k
  amount_lane w n i k tk le small lt =
      vm.splat_lane n _ w i (m.cast_ty _ k (int w)) lt
      ∙ m.trunc_den k 64 w tk le
      ∙ mod-eq_of_lt small

  -- A logical shift, by a choice on the whole vector.
  logical_lane :
      (o : BinaryOp) (w n i : ℕ) (x k : V) (f : ℕ → ℕ → ℕ)
      → is_ashr o ≡ false
      → ((y : V)
          → ty y ≡ vector (int w) n
          → lane y i < w
          → lane (bin o x y) i ≡ f (lane x i) (lane y i))
      → ty x ≡ vector (int w) n
      → ty k ≡ int 64
      → w ≤ 64
      → i < n
      → lane (shift_elements b o w n x k) i ≡ (if ltb (den k) w then f (lane x i) (den k) else 0)
  unfolding shift_elements
  logical_lane o w n i x k f logic law tx tk le lt =
      let width = const_int 64 w in
      let shift = splat n (cast CastOp.trunc k (int w)) in
      let tshift : ty shift ≡ vector (int w) n = vm.splat_ty n _ w (m.cast_ty _ k (int w)) in
      let ewidth : den width ≡ w = m.const_int_den 64 w ∙ mod-eq_of_lt (omega arith) in
      let enull : lane (null (ty x)) i ≡ 0 =
        ap (λ (t : IrType). lane (null t) i) tx ∙ vm.null_lane w n i lt in
      let echoice : lane (select (icmp Predicate.ult k width) (bin o x shift) (null (ty x))) i
          ≡ (if ltb (den k) w then lane (bin o x shift) i else lane (null (ty x)) i) =
        vm.select_whole _ (bin o x shift) (null (ty x)) i (m.icmp_ty Predicate.ult k width 64 tk)
          (m.null_ty (ty x) ∙ sym (m.bin_ty o x shift))
        ∙ ap (λ (c : ℕ). if c == 1 then lane (bin o x shift) i else lane (null (ty x)) i)
            (m.icmp_den Predicate.ult k width 64 tk (m.const_int_ty 64 w)
              ∙ ap (λ (j : ℕ). bit (ltb (den k) j)) ewidth)
        ∙ if_bit (ltb (den k) w) _ _ in
      rw logic (
        echoice
        ∙ either (ltb (den k) w)
            (λ small.
              let e : lane shift i ≡ den k =
                amount_lane w n i k tk le (ground (arith, lt-two-pow w, small)) lt in
              law shift tshift (rw e (ground (arith, small))) ∙ ap (λ (j : ℕ). f (lane x i) j) e)
            enull)

  arithmetic_lane :
      (w n i : ℕ) (x k : V)
      → ty x ≡ vector (int w) n
      → ty k ≡ int 64
      → 1 ≤ w
      → w ≤ 64
      → i < n
      → lane (shift_elements b BinaryOp.ashr w n x k) i
        ≡ shift_signed w (lane x i) (if ltb (den k) w then den k else w - 1)
  unfolding shift_elements
  arithmetic_lane w n i x k tx tk ge le lt =
      let last = const_int 64 (w - 1) in
      let tlast : ty last ≡ int 64 = m.const_int_ty 64 (w - 1) in
      let amount = select (icmp Predicate.ugt k last) last k in
      let tamount : ty amount ≡ int 64 = m.select_ty _ last k (tk ∙ sym tlast) ∙ tlast in
      let elast : den last ≡ w - 1 =
        m.const_int_den 64 (w - 1) ∙ mod-eq_of_lt (omega (arith, ge, le)) in
      let eamount : den amount ≡ (if ltb (den k) w then den k else w - 1) =
        m.select_den _ last k
        ∙ ap (λ (c : ℕ). if c == 1 then den last else den k)
            (m.icmp_den Predicate.ugt k last 64 tk tlast)
        ∙ if_bit (ltb (den last) (den k)) (den last) (den k)
        ∙ rw elast (ground (arith, ge)) in
      let small : den amount < w = rw eamount (ground (arith, ge)) in
      let shift = splat n (cast CastOp.trunc amount (int w)) in
      let tshift : ty shift ≡ vector (int w) n = vm.splat_ty n _ w (m.cast_ty _ amount (int w)) in
      let eshift : lane shift i ≡ den amount =
        amount_lane w n i amount tamount le (omega (arith, lt-two-pow w, small)) lt in
      vm.ashr_lane x shift w n i tx tshift lt (rw eshift small)
      ∙ ap (λ (j : ℕ). shift_signed w (lane x i) j) (eshift ∙ eamount)

  shift_lane :
      (o : BinaryOp) (w n i : ℕ) (x k : V)
      → is_shift o ≡ true
      → ty x ≡ vector (int w) n
      → ty k ≡ int 64
      → 1 ≤ w
      → w ≤ 64
      → i < n
      → lane (shift_elements b o w n x k) i ≡ shifted o w (lane x i) (den k)
  shift_lane BinaryOp.shl w n i x k e tx tk ge le lt =
      logical_lane BinaryOp.shl w n i x k (λ a j. a * 2 ^ j % 2 ^ w) refl
        (λ y ty_y small. vm.shl_lane x y w n i tx ty_y lt small) tx tk le lt
  shift_lane BinaryOp.lshr w n i x k e tx tk ge le lt =
      logical_lane BinaryOp.lshr w n i x k (λ a j. a / 2 ^ j) refl
        (λ y ty_y small. vm.lshr_lane x y w n i tx ty_y lt small) tx tk le lt
  shift_lane BinaryOp.ashr w n i x k e tx tk ge le lt = arithmetic_lane w n i x k tx tk ge le lt
  shift_lane o w n i x k e tx tk ge le lt = absurd (cc)

module _ {V : Type 0} (b : Builder V) (m : Meaning b) (vm : VectorMeaning b m)
    (cfg : Config V) where
  open b use {ty}
  open m use {den}
  open vm use {lane}

  -- For a builder that obeys the laws of LLVM's integer operations on vectors, where shifts have a
  -- law only for amounts below the width, LiftSsePshiftElement of an operand that loads as a vector
  -- of n numbers of w bits, with w from 1 to 64, and an amount of 64 bits stores a vector of which
  -- each element is the operand's element shifted by the whole amount: by w or more, a logical
  -- shift gives 0 and an arithmetic one the sign at all places.
  pub lift_sse_pshift_element_correct :
      (inst : Instr) (o : BinaryOp) (f : Facet) (s s1 s2 : LiftState V) (x k : V) (w n : ℕ)
      → is_shift o ≡ true
      → op_load b cfg (op inst 0) f s ≡ some (x, s1)
      → op_load b cfg (op inst 1) Facet.i64 s1 ≡ some (k, s2)
      → ty x ≡ vector (int w) n
      → ty k ≡ int 64
      → 1 ≤ w
      → w ≤ 64
      → (v : V) × (lift_sse_pshift_element b cfg inst o f s ≡ store_vec b cfg (op inst 0) v s2)
        × ((i : ℕ) → i < n → lane v i ≡ shifted o w (lane x i) (den k))
  unfolding lift_sse_pshift_element
  lift_sse_pshift_element_correct inst o f s s1 s2 x k w n e e1 e2 tx tk ge le = (
    shift_elements b o w n x k,
    rw (e1, e2, tx, ◌>>=◌) refl,
    λ i lt. shift_lane b m vm o w n i x k e tx tk ge le lt,
  )

  -- For a builder that obeys the laws of LLVM's integer operations on vectors, LiftSsePavg of two
  -- operands that load as vectors of n numbers of w bits, with w at least 1, stores a vector of
  -- which each element is the average of the operands' elements, rounded up.
  pub lift_sse_pavg_correct :
      (inst : Instr) (f : Facet) (s s1 s2 : LiftState V) (x y : V) (w n : ℕ)
      → op_load b cfg (op inst 0) f s ≡ some (x, s1)
      → op_load b cfg (op inst 1) f s1 ≡ some (y, s2)
      → ty x ≡ vector (int w) n
      → ty y ≡ vector (int w) n
      → 1 ≤ w
      → (v : V) × (lift_sse_pavg b cfg inst f s ≡ store_vec b cfg (op inst 0) v s2)
        × ((i : ℕ) → i < n → lane v i ≡ (lane x i + lane y i + 1) / 2)
  unfolding lift_sse_pavg
  lift_sse_pavg_correct inst f s s1 s2 x y w n e1 e2 tx ty_y le = (
    average b w n x y,
    rw (e1, e2, tx, ◌>>=◌) refl,
    λ i lt. average_lane b m vm w n i x y le tx ty_y lt,
  )
