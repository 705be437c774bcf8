-- ===== src/Lifter/Compare.antt =====
-- A comparison in lifted code: FlagCalcSub and then FlagCond, both of src/lifter-flags.cc, as CMP and
-- a conditional jump, move or set call them.
use rellume.Prelude.{
  ℕ, ◌+◌, ◌-◌, ◌%◌, ◌^◌, ◌≤◌, ◌<◌, ◌≡◌, ◌==◌, ltb, leb, if◌then◌else◌, Bool, true, false, not, some,
  arith, refl, ap, ◌∙◌, sym, Bool-cases, inl, inr, bit, ◌||◌,
}
use rellume.Facet.{Facet, facet_eq}
use rellume.Ir.{Builder, int, BinaryOp, Predicate}
use rellume.Ir.Meaning.{Meaning, negative, signed_lt, signed_sub_overflows}
use rellume.RegFile.{Deferred, value}
use rellume.Lifter.Monad.{LiftState}
use rellume.Lifter.Flags.{flag_calc_sub, flag_cond, zero_of, parity, adjust, Condition}
use rellume.Lifter.FlagState.{stored, put_flag}
use rellume.Lifter.FlagCalc.{parity_ty, masked_ty, after_sub, flag_calc_sub-eq, zero_test}
use rellume.Lifter.FlagLaws.{less_of_flags, bit_xor_bool}
use rellume.Lifter.FlagNums.{even_parity, sign_den, parity_den, adjust_sub_den, overflow_sub_den}
use rellume.Lifter.FlagCorrect.{sub_zero_den}
use rellume.Lifter.FlagCond.{IsFlag, Holds, HasFlags, Yields, flag_cond_correct, condition_of}

-- `icmp sle` on two w-bit patterns.
abbrev signed_le : ℕ → ℕ → ℕ → Bool
signed_le w m n = not (signed_lt w n m)

-- What a condition says of the two numbers of w bits that were compared.
abbrev pub comparison : Condition → ℕ → ℕ → ℕ → Bool
comparison Condition.o w m n = signed_sub_overflows w m n
comparison Condition.no w m n = not (signed_sub_overflows w m n)
comparison Condition.c w m n = ltb m n
comparison Condition.nc w m n = leb n m
comparison Condition.z w m n = m == n
comparison Condition.nz w m n = not (m == n)
comparison Condition.be w m n = leb m n
comparison Condition.a w m n = ltb n m
comparison Condition.s w m n = negative w ((m + 2 ^ w - n) % 2 ^ w)
comparison Condition.ns w m n = not (negative w ((m + 2 ^ w - n) % 2 ^ w))
comparison Condition.p w m n = even_parity ((m + 2 ^ w - n) % 2 ^ w)
comparison Condition.np w m n = not (even_parity ((m + 2 ^ w - n) % 2 ^ w))
comparison Condition.l w m n = signed_lt w m n
comparison Condition.ge w m n = signed_le w n m
comparison Condition.le w m n = signed_le w m n
comparison Condition.g w m n = signed_lt w n m

-- The flags of a difference.
abbrev flags_of : ℕ → ℕ → ℕ → (Facet → Bool) → Facet → Bool
flags_of w m n old Facet.zf = m == n
flags_of w m n old Facet.sf = negative w ((m + 2 ^ w - n) % 2 ^ w)
flags_of w m n old Facet.pf = even_parity ((m + 2 ^ w - n) % 2 ^ w)
flags_of w m n old Facet.af = ltb (m % 16) (n % 16)
flags_of w m n old Facet.cf = ltb m n
flags_of w m n old Facet.of = signed_sub_overflows w m n
flags_of w m n old f = old f

leb_lem : (m n : ℕ) → (ltb m n || (m == n)) ≡ leb m n
leb_lem m n = ground arith

not_ltb : (m n : ℕ) → not (ltb m n) ≡ leb n m
not_ltb m n = ground arith

not_leb : (m n : ℕ) → not (leb m n) ≡ ltb n m
not_leb m n = ground arith

signed_le_lem : (w m n : ℕ) → ((m == n) || signed_lt w m n) ≡ signed_le w m n
signed_le_lem w m n = ground arith

if-bit_xor : (x y : Bool) → (if x then not y else y) ≡ bit_xor_bool x y
if-bit_xor true y = refl
if-bit_xor false y = refl

not_not : (x : Bool) → not (not x) ≡ x
not_not true = refl
not_not false = refl

module _ (w m n : ℕ) (hm : m < 2 ^ w) (hn : n < 2 ^ w) (old : Facet → Bool) where
  less : condition_of Condition.l (flags_of w m n old) ≡ signed_lt w m n
  less =
      if-bit_xor (negative w ((m + 2 ^ w - n) % 2 ^ w)) (signed_sub_overflows w m n)
      ∙ less_of_flags w m n hm hn

  less_equal : condition_of Condition.le (flags_of w m n old) ≡ signed_le w m n
  less_equal = ap (λ (x : Bool). (m == n) || x) less ∙ signed_le_lem w m n

  comparison_lem :
      (cond : Condition) → condition_of cond (flags_of w m n old) ≡ comparison cond w m n
  comparison_lem Condition.nc = not_ltb m n
  comparison_lem Condition.be = leb_lem m n
  comparison_lem Condition.a = ap not (leb_lem m n) ∙ not_leb m n
  comparison_lem Condition.l = less
  comparison_lem Condition.ge = ap not less
  comparison_lem Condition.le = less_equal
  comparison_lem Condition.g = ap not less_equal ∙ not_not (signed_lt w n m)
  comparison_lem cond = refl

module _ {V : Type 0} (b : Builder V) (m : Meaning b) where
  stored-IsFlag : (v : V) (n : Bool) → IsFlag b m v n → IsFlag b m (stored b v) n
  stored-IsFlag v n h = elim (Bool-cases (b.is_phi v)) [
    | inl e ↦ rw e (record { ty = m.ssa_copy_ty v ∙ h.ty; den = m.ssa_copy_den v ∙ h.den })
    | inr e ↦ rw e h
  ]

  Holds-if :
      (c : Bool) (v : V) (n k : Bool) (d : Deferred V)
      → IsFlag b m v n
      → Holds b m d k
      → Holds b m (if c then value (stored b v) else d) (if c then n else k)
  Holds-if true v n k d h r = record { v = stored b v; found = refl; flag = stored-IsFlag v n h }
  Holds-if false v n k d h r = r

  HasFlags-put_flag :
      (f : Facet) (v : V) (n : Bool) (s : LiftState V) (flag : Facet → Bool)
      → IsFlag b m v n
      → HasFlags b m s flag
      → HasFlags b m (put_flag b f v s) (λ g. if facet_eq f g then n else flag g)
  unfolding put_flag
  HasFlags-put_flag f v n s flag h r g k =
      Holds-if (facet_eq f g) v n (flag g) (s.regfile.flags g) h (r g k)

  -- Six writes, the last one outermost, as one function of the facet.
  chain_lem :
      (w m n : ℕ) (old : Facet → Bool) (g : Facet)
      → (if facet_eq Facet.of g
          then signed_sub_overflows w m n
          else if facet_eq Facet.cf g
          then ltb m n
          else if facet_eq Facet.af g
          then ltb (m % 16) (n % 16)
          else if facet_eq Facet.pf g
          then even_parity ((m + 2 ^ w - n) % 2 ^ w)
          else if facet_eq Facet.sf g
          then negative w ((m + 2 ^ w - n) % 2 ^ w)
          else if facet_eq Facet.zf g
          then m == n
          else old g)
        ≡ flags_of w m n old g
  unfolding facet_eq
  chain_lem w m n old Facet.zf = refl
  chain_lem w m n old g = refl

  module _ (res lhs rhs : V) (w : ℕ) (alt_zf : Bool) (s : LiftState V) (old : Facet → Bool)
      (t : b.ty lhs ≡ int w) (u : b.ty rhs ≡ int w) (r : res ≡ b.bin BinaryOp.sub lhs rhs)
      (h : 8 ≤ w) where
    res_ty : b.ty res ≡ int w
    res_ty = ap b.ty r ∙ m.bin_ty BinaryOp.sub lhs rhs ∙ t

    res_den : m.den res ≡ (m.den lhs + 2 ^ w - m.den rhs) % 2 ^ w
    res_den = ap m.den r ∙ m.sub_den lhs rhs w t u

    zf_ty : (c : Bool) → b.ty (if c then b.icmp Predicate.eq lhs rhs else zero_test b m res) ≡ int 1
    zf_ty true = m.icmp_ty Predicate.eq lhs rhs w t
    zf_ty false = m.icmp_ty Predicate.eq res (zero_of b res) w res_ty

    sign_ty : b.ty (b.icmp Predicate.slt res (zero_of b res)) ≡ int 1
    sign_ty = m.icmp_ty Predicate.slt res (zero_of b res) w res_ty

    HasFlags-after_sub :
        HasFlags b m s old
        → HasFlags b m
            (after_sub b m res lhs rhs w false alt_zf s)
            (flags_of w (m.den lhs) (m.den rhs) old)
    HasFlags-after_sub known f k =
        let zf : IsFlag b m (if alt_zf then b.icmp Predicate.eq lhs rhs else zero_test b m res)
            (m.den lhs == m.den rhs) =
          record { ty = zf_ty alt_zf; den = sub_zero_den b m res lhs rhs w false s alt_zf t u r } in
        let sf : IsFlag b m (b.icmp Predicate.slt res (zero_of b res))
            (negative w ((m.den lhs + 2 ^ w - m.den rhs) % 2 ^ w)) =
          record {
            ty = sign_ty;
            den = sign_den b m w res res_ty ∙ ap (λ (n : ℕ). bit (negative w n)) res_den;
          } in
        let pf : IsFlag b m (parity b res) (even_parity ((m.den lhs + 2 ^ w - m.den rhs) % 2 ^ w)) =
          record {
            ty = parity_ty b m res;
            den = parity_den b m w res res_ty h ∙ ap (λ (n : ℕ). bit (even_parity n)) res_den;
          } in
        let af : IsFlag b m (adjust b res lhs rhs w) (ltb (m.den lhs % 16) (m.den rhs % 16)) =
          record {
            ty = m.icmp_ty Predicate.ne _ _ w (masked_ty b m res lhs rhs w t);
            den = adjust_sub_den b m w res lhs rhs t u r (omega arith);
          } in
        let cf : IsFlag b m (b.icmp Predicate.ult lhs rhs) (ltb (m.den lhs) (m.den rhs)) = record {
          ty = m.icmp_ty Predicate.ult lhs rhs w t;
          den = m.icmp_den Predicate.ult lhs rhs w t u;
        } in
        let of : IsFlag b m
            (b.icmp Predicate.ne (b.icmp Predicate.slt res (zero_of b res))
              (b.icmp Predicate.slt lhs rhs))
            (signed_sub_overflows w (m.den lhs) (m.den rhs)) =
          record {
            ty = m.icmp_ty Predicate.ne _ _ 1 sign_ty;
            den = overflow_sub_den b m w res lhs rhs t u r;
          } in
        rw (sym (chain_lem w (m.den lhs) (m.den rhs) old f)) (
          HasFlags-put_flag Facet.of _ _ _ _ of
            (HasFlags-put_flag Facet.cf _ _ _ _ cf (
              HasFlags-put_flag Facet.af _ _ _ _ af (
                HasFlags-put_flag Facet.pf _ _ _ _ pf (
                  HasFlags-put_flag Facet.sf _ _ _ _ sf
                    (HasFlags-put_flag Facet.zf _ _ _ _ zf known)))))
            f k)

    -- For a builder that obeys the laws of LLVM's integer operations: a comparison of two values
    -- of the same width, at least 8 bits, with either way to compute ZF, ends well where each flag
    -- had a value before, and every condition that is evaluated next ends well and gives what it
    -- says of the two numbers: unsigned order, signed order, equality, sign, parity and signed
    -- overflow of the difference.
    pub compare_correct :
        (cond : Condition)
        → HasFlags b m s old
        → (after : LiftState V) × (flag_calc_sub b res lhs rhs false alt_zf s ≡ some (tt, after))
          × Yields b m (flag_cond b cond after) after (comparison cond w (m.den lhs) (m.den rhs))
    compare_correct cond known =
        let after = after_sub b m res lhs rhs w false alt_zf s in
        let y =
          flag_cond_correct b m after (flags_of w (m.den lhs) (m.den rhs) old)
            (HasFlags-after_sub known) cond in
        let e =
          comparison_lem w (m.den lhs) (m.den rhs) (m.den_lt lhs w t) (m.den_lt rhs w u) old cond in
        (after, flag_calc_sub-eq b m res lhs rhs w false alt_zf s res_ty t, rw (sym e) y)
