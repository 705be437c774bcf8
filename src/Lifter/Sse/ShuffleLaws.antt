-- ===== src/Lifter/Sse/ShuffleLaws.antt =====
-- The element shuffles of src/lifter-sse.cc and of OpStoreVec in src/lifter-operand.cc.
use rellume.Prelude.{
  ℕ, ◌+◌, ◌-◌, ◌%◌, ◌^◌, ◌≤◌, ◌<◌, ◌≡◌, ltb, if◌then◌else◌, Bool, true, false, List, [], ◌∷◌, ◌++◌,
  map, length, get_elem?, suc, zero, some, refl, ap, ◌∙◌, sym, arith, length-append,
  get_elem?-append_left, get_elem?-concat, Bool-cases, inl, inr,
}
use rellume.Ir.{Builder, IrType, int, vector}
use rellume.Ir.Meaning.{Meaning}
use rellume.Ir.Meaning.Vector.{VectorMeaning}
use rellume.Facet.{Facet}
use rellume.Instr.{Instr, op, imm?}
use rellume.RegFile.Access.{below}
use rellume.Lifter.Monad.{LiftState, Config, ◌>>=◌}
use rellume.Lifter.Operand.{op_load}
use rellume.Lifter.Vector.{store_vec}
use rellume.Lifter.Sse.Masks.{shift_bytes_mask, byte_shift}
use rellume.Lifter.Sse.Shuffle.{lift_sse_pshift_bytes, is_psrldq}
use rellume.Lifter.Vector.{enlarge_mask, fill_register}

map-concat :
    {A B : Type 0} (f : A → B) (xs : List A) (x : A) → map f (xs ++ x ∷ []) ≡ map f xs ++ f x ∷ []
map-concat f [] x = refl
map-concat f (y ∷ xs) x = ap (λ l. f y ∷ l) (map-concat f xs x)

pub length-map-below : (f : ℕ → ℕ) (n : ℕ) → length (map f (below n)) ≡ n
length-map-below f zero = refl
length-map-below f (suc n) =
    ap length (map-concat f (below n) n)
    ∙ length-append (map f (below n)) (f n ∷ [])
    ∙ omega (arith, length-map-below f n)

-- The masks are computed from positions.
pub get_elem?-map-below : (f : ℕ → ℕ) (n i : ℕ) → i < n → get_elem? (map f (below n)) i ≡ some (f i)
get_elem?-map-below f zero i lt = absurd (omega arith)
get_elem?-map-below f (suc n) i lt =
    ap (λ l. get_elem? l i) (map-concat f (below n) n) ∙ elim (Bool-cases (ltb i n)) [
      | inl e ↦
          let small : i < n = ground (arith, e) in
          get_elem?-append_left (map f (below n)) (f n ∷ []) i
            (omega (arith, length-map-below f n, small))
          ∙ get_elem?-map-below f n i small
      | inr e ↦
          let last : i ≡ n = ground (arith, e, lt) in
          rw last (
            ap (λ (k : ℕ). get_elem? (map f (below n) ++ f n ∷ []) k) (sym (length-map-below f n))
            ∙ get_elem?-concat (map f (below n)) (f n))
    ]

removed : (k n : ℕ) → k + n - n ≡ k
removed k n = omega arith

if_true : {A : Type 0} (c : Bool) (x y : A) → c ≡ true → (if c then x else y) ≡ x
if_true true x y e = refl
if_true false x y e = absurd (cc)

if_false : {A : Type 0} (c : Bool) (x y : A) → c ≡ false → (if c then x else y) ≡ y
if_false true x y e = absurd (cc)
if_false false x y e = refl

module _ {V : Type 0} (b : Builder V) (m : Meaning b) (vm : VectorMeaning b m) where
  open b use {ty, null, shuffle}
  open vm use {lane}

  -- An element of a shuffle whose mask is computed from positions, from the first vector or the
  -- second.
  pub masked_left :
      (x y : V) (f : ℕ → ℕ) (t : IrType) (n len i k : ℕ)
      → ty x ≡ vector t n
      → ty y ≡ vector t n
      → i < len
      → f i ≡ k
      → k < n
      → lane (shuffle x y (map f (below len))) i ≡ lane x k
  masked_left x y f t n len i k tx ty_y lt e small =
      vm.shuffle_lane x y (map f (below len)) t n i k tx ty_y
        (get_elem?-map-below f len i lt ∙ ap some e) (omega arith)
      ∙ if_true (ltb k n) _ _ (ground arith)

  pub masked_right :
      (x y : V) (f : ℕ → ℕ) (t : IrType) (n len i k : ℕ)
      → ty x ≡ vector t n
      → ty y ≡ vector t n
      → i < len
      → f i ≡ k + n
      → k < n
      → lane (shuffle x y (map f (below len))) i ≡ lane y k
  masked_right x y f t n len i k tx ty_y lt e small =
      vm.shuffle_lane x y (map f (below len)) t n i (k + n) tx ty_y
        (get_elem?-map-below f len i lt ∙ ap some e) (omega arith)
      ∙ if_false (ltb (k + n) n) _ _ (ground arith)
      ∙ ap (λ (j : ℕ). lane y j) (removed k n)

  masked_ty :
      (x y : V) (f : ℕ → ℕ) (t : IrType) (n len : ℕ)
      → ty x ≡ vector t n
      → ty (shuffle x y (map f (below len))) ≡ vector t len
  masked_ty x y f t n len tx =
      vm.shuffle_ty x y (map f (below len)) t n tx
      ∙ ap (λ (k : ℕ). vector t k) (length-map-below f len)

  -- For a builder that obeys the laws of LLVM's shuffles, the value that OpStoreVec builds for a
  -- register from a vector of n elements and the old vector of at least as many has the new
  -- elements at its begin and keeps the old ones behind them.
  pub fill_register-lane :
      (v full : V) (t : IrType) (n full_num i : ℕ)
      → ty v ≡ vector t n
      → ty full ≡ vector t full_num
      → n ≤ full_num
      → i < full_num
      → lane (fill_register b v full_num full) i ≡ (if ltb i n then lane v i else lane full i)
  fill_register-lane v full t n full_num i tv tfull le lt =
      let enlarge : ℕ → ℕ = λ k. if ltb k n then k else n in
      let join : ℕ → ℕ = λ k. k + (if ltb k n then 0 else full_num) in
      let wide = shuffle v (null (ty v)) (enlarge_mask full_num n) in
      let twide : ty wide ≡ vector t full_num = masked_ty v _ enlarge t n full_num tv in
      rw (fill_register, tv)
        (elim (Bool-cases (ltb i n)) [
          | inl e ↦
              masked_left wide full join t full_num full_num i i twide tfull lt (ground (arith, e))
                lt
              ∙ masked_left v (null (ty v)) enlarge t n full_num i i tv (m.null_ty _ ∙ tv) lt
                  (ground (arith, e)) (ground (arith, e))
              ∙ sym (if_true (ltb i n) _ _ e)
          | inr e ↦
              masked_right wide full join t full_num full_num i i twide tfull lt (ground (arith, e))
                lt
              ∙ sym (if_false (ltb i n) _ _ e)
        ])

-- Cutting the amount at 16 does not change the bytes.
right_amount :
    (f : ℕ → ℕ) (q i : ℕ)
    → (if ltb (i + (if ltb q 16 then q else 16)) 16
        then f (i + (if ltb q 16 then q else 16))
        else 0)
      ≡ (if ltb (i + q) 16 then f (i + q) else 0)
right_amount f q i = elim (Bool-cases (ltb q 16)) [
  | inl e ↦ rw e refl
  | inr e ↦ rw e (
      if_false (ltb (i + 16) 16) _ _ (ground arith)
      ∙ sym (if_false (ltb (i + q) 16) _ _ (ground (arith, e))))
]

left_amount :
    (f : ℕ → ℕ) (q i : ℕ)
    → i < 16
    → (if ltb i (if ltb q 16 then q else 16) then 0 else f (i - (if ltb q 16 then q else 16)))
      ≡ (if ltb i q then 0 else f (i - q))
left_amount f q i lt = elim (Bool-cases (ltb q 16)) [
  | inl e ↦ rw e refl
  | inr e ↦
      rw e (if_true (ltb i 16) _ _ (ground arith) ∙ sym (if_true (ltb i q) _ _ (ground (arith, e))))
]

module _ {V : Type 0} (b : Builder V) (m : Meaning b) (vm : VectorMeaning b m)
    (cfg : Config V) where
  open b use {ty, null, shuffle}
  open vm use {lane}

  right_bytes_lane :
      (x : V) (k i : ℕ)
      → ty x ≡ vector (int 8) 16
      → k ≤ 16
      → i < 16
      → lane (shuffle x (null (ty x)) (shift_bytes_mask true k)) i
        ≡ (if ltb (i + k) 16 then lane x (i + k) else 0)
  unfolding shift_bytes_mask
  right_bytes_lane x k i t le lt = elim (Bool-cases (ltb (i + k) 16)) [
    | inl e ↦
        masked_left b m vm x (null (ty x)) (λ j. j + k) (int 8) 16 16 i (i + k) t (m.null_ty _ ∙ t)
          lt refl (ground (arith, e))
        ∙ sym (if_true (ltb (i + k) 16) _ _ e)
    | inr e ↦
        masked_right b m vm x (null (ty x)) (λ j. j + k) (int 8) 16 16 i (i + k - 16) t
          (m.null_ty _ ∙ t) lt (ground (arith, e)) (omega arith)
        ∙ ap (λ (s : IrType). lane (null s) (i + k - 16)) t
        ∙ vm.null_lane 8 16 (i + k - 16) (omega arith)
        ∙ sym (if_false (ltb (i + k) 16) _ _ e)
  ]

  left_bytes_lane :
      (x : V) (k i : ℕ)
      → ty x ≡ vector (int 8) 16
      → k ≤ 16
      → i < 16
      → lane (shuffle (null (ty x)) x (shift_bytes_mask false k)) i
        ≡ (if ltb i k then 0 else lane x (i - k))
  unfolding shift_bytes_mask
  left_bytes_lane x k i t le lt = elim (Bool-cases (ltb i k)) [
    | inl e ↦
        masked_left b m vm (null (ty x)) x (λ j. j + (16 - k)) (int 8) 16 16 i (i + (16 - k))
          (m.null_ty _ ∙ t) t lt refl (ground (arith, e))
        ∙ ap (λ (s : IrType). lane (null s) (i + (16 - k))) t
        ∙ vm.null_lane 8 16 (i + (16 - k)) (ground (arith, e))
        ∙ sym (if_true (ltb i k) _ _ e)
    | inr e ↦
        masked_right b m vm (null (ty x)) x (λ j. j + (16 - k)) (int 8) 16 16 i (i - k)
          (m.null_ty _ ∙ t) t lt (ground (arith, e)) (omega arith)
        ∙ sym (if_false (ltb i k) _ _ e)
  ]

  -- For a builder that obeys the laws of LLVM's shuffles, LiftSsePshiftBytes of an operand that
  -- loads as a vector of 16 bytes stores that vector shifted by the immediate: the bytes that move
  -- out are lost, those that move in are 0, and a shift by 16 or more, as a number of 32 bits,
  -- leaves no byte.
  pub lift_sse_pshift_bytes_correct :
      (inst : Instr) (s s1 : LiftState V) (x : V) (imm : ℕ)
      → imm? (op inst 1) ≡ some imm
      → op_load b cfg (op inst 0) Facet.v16i8 s ≡ some (x, s1)
      → ty x ≡ vector (int 8) 16
      → (v : V) × (lift_sse_pshift_bytes b cfg inst s ≡ store_vec b cfg (op inst 0) v s1)
        × ((i : ℕ)
            → i < 16
            → lane v i ≡ (
                if is_psrldq inst.ty
                then (if ltb (i + imm % 2 ^ 32) 16 then lane x (i + imm % 2 ^ 32) else 0)
                else (if ltb i (imm % 2 ^ 32) then 0 else lane x (i - imm % 2 ^ 32))))
  unfolding lift_sse_pshift_bytes
  lift_sse_pshift_bytes_correct inst s s1 x imm e0 e1 t =
      let k = byte_shift imm in
      let zeros = null (ty x) in
      (
        if is_psrldq inst.ty
            then shuffle x zeros (shift_bytes_mask true k)
            else shuffle zeros x (shift_bytes_mask false k),
        rw (e0, e1, ◌>>=◌) refl,
        λ i lt. elim (Bool-cases (is_psrldq inst.ty)) [
          | inl e ↦ rw e (
              right_bytes_lane x k i t (ground arith) lt
              ∙ right_amount (λ j. lane x j) (imm % 2 ^ 32) i)
          | inr e ↦ rw e (
              left_bytes_lane x k i t (ground arith) lt
              ∙ left_amount (λ j. lane x j) (imm % 2 ^ 32) i lt)
        ],
      )
