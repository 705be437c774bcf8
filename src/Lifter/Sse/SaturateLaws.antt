-- ===== src/Lifter/Sse/SaturateLaws.antt =====
-- The saturating instructions of src/lifter-sse.cc on each element.
use native.Mathlib.Nat.{mod-eq_of_lt, one-le-pow}
use mathlib.Core.Path.{subst}
use rellume.Prelude.{
  ℕ, ◌+◌, ◌-◌, ◌*◌, ◌%◌, ◌^◌, ◌≤◌, ◌<◌, ◌≡◌, if◌then◌else◌, Bool, true, false, suc, some, refl, ap,
  ◌∙◌, sym, arith,
}
use rellume.Ir.{Builder, IrType, int, vector, BinaryOp, CastOp, Predicate}
use rellume.Ir.Meaning.{Meaning, signed_lt}
use rellume.Ir.Meaning.Vector.{VectorMeaning, sign_extend}
use rellume.Facet.{Facet}
use rellume.Instr.{Instr, op}
use rellume.Lifter.Monad.{LiftState, Config, ◌>>=◌}
use rellume.Lifter.Operand.{op_load}
use rellume.Lifter.Vector.{store_vec}
use rellume.Lifter.Sse.Saturate.{
  saturate_value, saturate_min, saturate_max, widened_op, saturate_trunc, lift_sse_paddsub_saturate,
}
use rellume.Lifter.Sse.SaturateNums.{
  clamped, raised, half_width, saturate_min_signed, saturate_max_signed, saturate_min_unsigned,
  saturate_max_unsigned, half_pow, four_le_pow,
}
use rellume.Lifter.Sse.SaturateArith.{
  least, biased, add_signed, sub_signed, add_unsigned, sub_unsigned,
}
use rellume.Lifter.Sse.Lanes.{choice_lane, constant_lane}

-- The operand of twice the width.
abbrev pub widened : ℕ → Bool → ℕ → ℕ
widened h true a = sign_extend (suc h) (suc h * 2) a
widened h false a = a

abbrev pub add_or_sub : Bool → BinaryOp
add_or_sub subtract = if subtract then BinaryOp.sub else BinaryOp.add

-- `r` is the sum or the difference of two numbers of h + 1 bits, or the end of the range that it
-- leaves; a signed number is given by its distance from the least one.
abbrev pub Saturates : Bool → Bool → ℕ → ℕ → ℕ → ℕ → Type 0
Saturates false false h x y r = r ≡ least (x + y) (2 ^ suc h - 1)
Saturates true false h x y r = r ≡ x - y
Saturates false true h x y r = biased h r ≡ least (biased h x + biased h y - 2 ^ h) (2 ^ suc h - 1)
Saturates true true h x y r = biased h r ≡ least (biased h x + 2 ^ h - biased h y) (2 ^ suc h - 1)

-- What the code computes for an element.
abbrev computed_op : Bool → ℕ → ℕ → ℕ → ℕ
computed_op subtract w k l = if subtract then (k + 2 ^ w - l) % 2 ^ w else (k + l) % 2 ^ w

computed_op-Saturates :
    (subtract sign : Bool) (h x y : ℕ)
    → 1 ≤ h
    → x < 2 ^ suc h
    → y < 2 ^ suc h
    → Saturates subtract sign h x y (
        clamped
          (suc h * 2)
          sign
          (computed_op subtract (suc h * 2) (widened h sign x) (widened h sign y))
        % 2 ^ suc h)
computed_op-Saturates false false = add_unsigned
computed_op-Saturates true false = sub_unsigned
computed_op-Saturates false true = add_signed
computed_op-Saturates true true = sub_signed

min-lt : (h : ℕ) (sign : Bool) → 1 ≤ h → saturate_min (suc h * 2) sign < 2 ^ (suc h * 2)
min-lt h true le =
    rw (saturate_min_signed h) (omega (arith, half_pow h, four_le_pow h le, one-le-pow h 2))
min-lt h false le = rw (saturate_min_unsigned (suc h)) (omega (arith, one-le-pow (suc h * 2) 2))

max-lt : (h : ℕ) (sign : Bool) → 1 ≤ h → saturate_max (suc h * 2) sign < 2 ^ (suc h * 2)
max-lt h true le =
    rw (saturate_max_signed h) (omega (arith, half_pow h, four_le_pow h le, one-le-pow h 2))
max-lt h false le =
    rw (saturate_max_unsigned (suc h)) (omega (arith, four_le_pow h le, one-le-pow (suc h) 2))

module _ {V : Type 0} (b : Builder V) (m : Meaning b) (vm : VectorMeaning b m) where
  open b use {ty, bin, icmp, select, cast, integer_value}
  open vm use {lane}

  pub saturate_value-lane :
      (h n i : ℕ) (val : V) (sign : Bool)
      → 1 ≤ h
      → ty val ≡ vector (int (suc h * 2)) n
      → i < n
      → lane (saturate_value b (suc h * 2) (vector (int (suc h)) n) val sign) i
        ≡ clamped (suc h * 2) sign (lane val i) % 2 ^ suc h
  unfolding saturate_value
  saturate_value-lane h n i val sign le t lt =
      let w = suc h * 2 in
      let minv = integer_value (ty val) (saturate_min w sign) in
      let maxv = integer_value (ty val) (saturate_max w sign) in
      let low = select (icmp Predicate.slt val minv) minv val in
      let tmin : ty minv ≡ ty val = vm.integer_value_ty (ty val) (saturate_min w sign) in
      let tmax : ty maxv ≡ ty val = vm.integer_value_ty (ty val) (saturate_max w sign) in
      let tlow : ty low ≡ ty val = m.select_ty _ minv val (sym tmin) ∙ tmin in
      let emin : lane minv i ≡ saturate_min w sign =
        constant_lane b m vm val (saturate_min w sign) w n i t lt
        ∙ mod-eq_of_lt (min-lt h sign le) in
      let emax : lane maxv i ≡ saturate_max w sign =
        constant_lane b m vm val (saturate_max w sign) w n i t lt
        ∙ mod-eq_of_lt (max-lt h sign le) in
      let elow : lane low i ≡ raised w sign (lane val i) =
        choice_lane b m vm Predicate.slt val minv minv val w n i t (tmin ∙ t) (sym tmin) lt
        ∙ ap (λ (k : ℕ). if signed_lt w (lane val i) k then k else lane val i) emin in
      vm.trunc_lane (select (icmp Predicate.sgt low maxv) maxv low) w (suc h) n i
        (m.select_ty _ maxv low (tlow ∙ sym tmax) ∙ tmax ∙ t) (omega arith) lt
      ∙ ap (λ (k : ℕ). k % 2 ^ suc h)
          (choice_lane b m vm Predicate.sgt low maxv maxv low w n i (tlow ∙ t) (tmax ∙ t)
              (tlow ∙ sym tmax) lt
            ∙ ap (λ (k : ℕ). if signed_lt w k (lane low i) then k else lane low i) emax
            ∙ ap (λ (k : ℕ). if signed_lt w (saturate_max w sign) k then saturate_max w sign else k)
                elow)

  -- A result of widened operands, before the saturation.
  widened_ty :
      (o : BinaryOp) (sign : Bool) (x y : V) (t : IrType) → ty (widened_op b o sign t x y) ≡ t
  unfolding widened_op
  widened_ty o sign x y t = m.bin_ty o _ _ ∙ m.cast_ty _ x t

  operand_lane :
      (h n i : ℕ) (sign : Bool) (x : V)
      → ty x ≡ vector (int (suc h)) n
      → i < n
      → lane (cast (if sign then CastOp.sext else CastOp.zext) x (vector (int (suc h * 2)) n)) i
        ≡ widened h sign (lane x i)
  operand_lane h n i true x t lt = vm.sext_lane x (suc h) (suc h * 2) n i t (omega arith) lt
  operand_lane h n i false x t lt = vm.zext_lane x (suc h) (suc h * 2) n i t (omega arith) lt

  widened_lane :
      (o : BinaryOp) (f : ℕ → ℕ → ℕ) (h n i : ℕ) (sign : Bool) (x y : V)
      → ((u v : V)
          → ty u ≡ vector (int (suc h * 2)) n
          → ty v ≡ vector (int (suc h * 2)) n
          → lane (bin o u v) i ≡ f (lane u i) (lane v i))
      → ty x ≡ vector (int (suc h)) n
      → ty y ≡ vector (int (suc h)) n
      → i < n
      → lane (widened_op b o sign (vector (int (suc h * 2)) n) x y) i
        ≡ f (widened h sign (lane x i)) (widened h sign (lane y i))
  unfolding widened_op
  widened_lane o f h n i sign x y law tx ty_y lt =
      law _ _ (m.cast_ty _ x _) (m.cast_ty _ y _)
      ∙ rw (operand_lane h n i sign x tx lt, operand_lane h n i sign y ty_y lt) refl

  op_lane :
      (subtract : Bool) (u v : V) (w n i : ℕ)
      → ty u ≡ vector (int w) n
      → ty v ≡ vector (int w) n
      → i < n
      → lane (bin (add_or_sub subtract) u v) i ≡ computed_op subtract w (lane u i) (lane v i)
  op_lane true = vm.sub_lane
  op_lane false = vm.add_lane

  pub saturating_lane :
      (subtract sign : Bool) (h n i : ℕ) (x y : V)
      → 1 ≤ h
      → ty x ≡ vector (int (suc h)) n
      → ty y ≡ vector (int (suc h)) n
      → i < n
      → Saturates subtract sign h (lane x i) (lane y i) (
          lane
            (saturate_value b
              (suc h * 2)
              (vector (int (suc h)) n)
              (widened_op b (add_or_sub subtract) sign (vector (int (suc h * 2)) n) x y)
              sign)
            i)
  saturating_lane subtract sign h n i x y le tx ty_y lt =
      let w = suc h * 2 in
      let res = widened_op b (add_or_sub subtract) sign (vector (int w) n) x y in
      let law : (u v : V)
          → ty u ≡ vector (int w) n
          → ty v ≡ vector (int w) n
          → lane (bin (add_or_sub subtract) u v) i ≡ computed_op subtract w (lane u i) (lane v i) =
        λ u v tu tv. op_lane subtract u v w n i tu tv lt in
      let e : lane (saturate_value b w (vector (int (suc h)) n) res sign) i
          ≡ clamped w sign
              (computed_op subtract w (widened h sign (lane x i)) (widened h sign (lane y i)))
            % 2 ^ suc h =
        saturate_value-lane h n i res sign le (widened_ty _ sign x y _) lt
        ∙ ap (λ (k : ℕ). clamped w sign k % 2 ^ suc h)
            (widened_lane _ (computed_op subtract w) h n i sign x y law tx ty_y lt) in
      subst (λ (r : ℕ). Saturates subtract sign h (lane x i) (lane y i) r) (sym e)
        (computed_op-Saturates subtract sign h (lane x i) (lane y i) le
          (vm.lane_lt x (suc h) n i tx lt) (vm.lane_lt y (suc h) n i ty_y lt))

module _ {V : Type 0} (b : Builder V) (m : Meaning b) (vm : VectorMeaning b m)
    (cfg : Config V) where
  open b use {ty}
  open vm use {lane}

  -- For a builder that obeys the laws of LLVM's integer operations on vectors, LiftSsePaddsubSaturate
  -- of two operands that load as vectors of n numbers of h + 1 bits, with h at least 1, stores a
  -- vector of which each element is the sum or the difference of the operands' elements, cut at the
  -- ends of the signed or unsigned range.
  pub lift_sse_paddsub_saturate_correct :
      (inst : Instr) (subtract sign : Bool) (f : Facet) (s s1 s2 : LiftState V) (x y : V) (h n : ℕ)
      → op_load b cfg (op inst 0) f s ≡ some (x, s1)
      → op_load b cfg (op inst 1) f s1 ≡ some (y, s2)
      → 1 ≤ h
      → ty x ≡ vector (int (suc h)) n
      → ty y ≡ vector (int (suc h)) n
      → (v : V) × (lift_sse_paddsub_saturate b cfg inst (add_or_sub subtract) sign f s
          ≡ store_vec b cfg (op inst 0) v s2)
        × ((i : ℕ) → i < n → Saturates subtract sign h (lane x i) (lane y i) (lane v i))
  unfolding lift_sse_paddsub_saturate saturate_trunc
  lift_sse_paddsub_saturate_correct inst subtract sign f s s1 s2 x y h n e1 e2 le tx ty_y =
      let res = widened_op b (add_or_sub subtract) sign (vector (int (suc h * 2)) n) x y in
      (
        saturate_value b (suc h * 2) (vector (int (suc h)) n) res sign,
        rw (e1, e2, tx, ◌>>=◌)
            (rw
              (
                widened_ty b m vm (add_or_sub subtract) sign x y (vector (int (suc h * 2)) n),
                half_width (suc h),
              )
              refl),
        λ i lt. saturating_lane b m vm subtract sign h n i x y le tx ty_y lt,
      )
