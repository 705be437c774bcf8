-- ===== src/Lifter/FlagCond.antt =====
-- LifterBase::FlagCond of src/lifter-flags.cc: the value of a condition by the flags.
use rellume.Prelude.{
  ℕ, ◌-◌, ◌^◌, ◌≡◌, ◌==◌, if◌then◌else◌, Bool, true, false, not, Option, some, arith, refl, ap, ◌∙◌,
  bit, bit_or, ◌||◌,
}
use rellume.Facet.{Facet, facet_eq}
use rellume.Ir.{Builder, int, BinaryOp, Predicate}
use rellume.Ir.Meaning.{Meaning}
use rellume.RegFile.{Deferred, value, flags_has, access_reg_facet, read_slot}
use rellume.RegFile.Access.{force}
use rellume.RegFile.Access
use rellume.Lifter.Monad.{LiftState, get_flag, ◌>>=◌}
use rellume.Lifter.Monad
use rellume.Lifter.Flags.{Condition, flag_cond, even_cond, without_negation, is_negated}

-- The condition codes of the x86 manual, of the flags.
abbrev pub condition_of : Condition → (Facet → Bool) → Bool
condition_of Condition.o flag = flag Facet.of
condition_of Condition.no flag = not (flag Facet.of)
condition_of Condition.c flag = flag Facet.cf
condition_of Condition.nc flag = not (flag Facet.cf)
condition_of Condition.z flag = flag Facet.zf
condition_of Condition.nz flag = not (flag Facet.zf)
condition_of Condition.be flag = flag Facet.cf || flag Facet.zf
condition_of Condition.a flag = not (flag Facet.cf || flag Facet.zf)
condition_of Condition.s flag = flag Facet.sf
condition_of Condition.ns flag = not (flag Facet.sf)
condition_of Condition.p flag = flag Facet.pf
condition_of Condition.np flag = not (flag Facet.pf)
condition_of Condition.l flag = if flag Facet.sf then not (flag Facet.of) else flag Facet.of
condition_of Condition.ge flag = not (if flag Facet.sf then not (flag Facet.of) else flag Facet.of)
condition_of Condition.le flag =
    flag Facet.zf || (if flag Facet.sf then not (flag Facet.of) else flag Facet.of)
condition_of Condition.g flag =
    not (flag Facet.zf || (if flag Facet.sf then not (flag Facet.of) else flag Facet.of))

module _ {V : Type 0} (b : Builder V) (m : Meaning b) where
  -- A value of one bit.
  pub record IsFlag (v : V) (n : Bool) : Type 0 where
    pub ty : b.ty v ≡ int 1
    pub den : m.den v ≡ bit n

  -- A known flag.
  pub record Holds (d : Deferred V) (n : Bool) : Type 0 where
    pub v : V
    pub found : d ≡ value v
    pub flag : IsFlag v n

  get_flag-eq :
      (f : Facet) (v : V) (s : LiftState V)
      → s.regfile.flags f ≡ value v
      → flags_has f ≡ true
      → get_flag b f s ≡ some (v, s)
  unfolding get_flag Monad.get_reg Access.get_reg Access.get_reg_facet access_reg_facet read_slot
      facet_eq Access.derive_reg
  get_flag-eq Facet.zf v s e _ = ground arith
  get_flag-eq Facet.sf v s e _ = ground arith
  get_flag-eq Facet.pf v s e _ = ground arith
  get_flag-eq Facet.cf v s e _ = ground arith
  get_flag-eq Facet.of v s e _ = ground arith
  get_flag-eq Facet.af v s e _ = ground arith
  get_flag-eq Facet.df v s e _ = ground arith
  get_flag-eq f v s e h = cc

  -- The state has values for the status flags.
  abbrev pub HasFlags : LiftState V → (Facet → Bool) → Type 0
  HasFlags s flag = (f : Facet) → flags_has f ≡ true → Holds (s.regfile.flags f) (flag f)

  -- A value of one bit that a computation returns without changing the state.
  pub record Yields (run : Option (V × LiftState V)) (s : LiftState V) (n : Bool) : Type 0 where
    pub v : V
    pub runs : run ≡ some (v, s)
    pub flag : IsFlag v n

  bit_or-bit : (x y : Bool) → bit_or (bit x) (bit y) ≡ bit (x || y)
  bit_or-bit true true = refl
  bit_or-bit true false = refl
  bit_or-bit false true = refl
  bit_or-bit false false = refl

  ne-bit : (x y : Bool) → not (bit x == bit y) ≡ (if x then not y else y)
  ne-bit true true = refl
  ne-bit true false = refl
  ne-bit false true = refl
  ne-bit false false = refl

  not-bit : (x : Bool) → 2 ^ 1 - 1 - bit x ≡ bit (not x)
  not-bit true = refl
  not-bit false = refl

  or-IsFlag :
      (v w : V) (x y : Bool) → IsFlag v x → IsFlag w y → IsFlag (b.bin BinaryOp.or v w) (x || y)
  or-IsFlag v w x y h k = record {
    ty = m.bin_ty BinaryOp.or v w ∙ h.ty;
    den =
        m.or_den v w 1 h.ty k.ty
        ∙ ap (λ (n : ℕ). bit_or n (m.den w)) h.den
        ∙ ap (bit_or (bit x)) k.den
        ∙ bit_or-bit x y;
  }

  ne-IsFlag :
      (v w : V) (x y : Bool)
      → IsFlag v x
      → IsFlag w y
      → IsFlag (b.icmp Predicate.ne v w) (if x then not y else y)
  ne-IsFlag v w x y h k = record {
    ty = m.icmp_ty Predicate.ne v w 1 h.ty;
    den = m.icmp_den Predicate.ne v w 1 h.ty k.ty ∙ rw (h.den, k.den) (ap bit (ne-bit x y));
  }

  not-IsFlag : (v : V) (x : Bool) → IsFlag v x → IsFlag (b.create_not v) (not x)
  not-IsFlag v x h = record {
    ty = m.not_ty v ∙ h.ty;
    den = m.not_den v 1 h.ty ∙ rw h.den (not-bit x);
  }

  module _ (s : LiftState V) (flag : Facet → Bool) (h : HasFlags s flag) where
    get_flag-Yields : (f : Facet) → flags_has f ≡ true → Yields (get_flag b f s) s (flag f)
    get_flag-Yields f k =
        let hf = h f k in
        record { v = hf.v; runs = get_flag-eq f hf.v s hf.found k; flag = hf.flag }

    be_lem : Yields (even_cond b Condition.be s) s (flag Facet.cf || flag Facet.zf)
    unfolding even_cond flags_has
    be_lem =
        let cf = get_flag-Yields Facet.cf refl in
        let zf = get_flag-Yields Facet.zf refl in
        record {
          v = b.bin BinaryOp.or cf.v zf.v;
          runs = rw (cf.runs, zf.runs, ◌>>=◌) refl;
          flag = or-IsFlag cf.v zf.v (flag Facet.cf) (flag Facet.zf) cf.flag zf.flag;
        }

    l_lem :
        Yields
          (even_cond b Condition.l s)
          s
          (if flag Facet.sf then not (flag Facet.of) else flag Facet.of)
    unfolding even_cond flags_has
    l_lem =
        let sf = get_flag-Yields Facet.sf refl in
        let of = get_flag-Yields Facet.of refl in
        record {
          v = b.icmp Predicate.ne sf.v of.v;
          runs = rw (sf.runs, of.runs, ◌>>=◌) refl;
          flag = ne-IsFlag sf.v of.v (flag Facet.sf) (flag Facet.of) sf.flag of.flag;
        }

    le_lem :
        Yields
          (even_cond b Condition.le s)
          s
          (flag Facet.zf || (if flag Facet.sf then not (flag Facet.of) else flag Facet.of))
    unfolding even_cond flags_has
    le_lem =
        let zf = get_flag-Yields Facet.zf refl in
        let sf = get_flag-Yields Facet.sf refl in
        let of = get_flag-Yields Facet.of refl in
        record {
          v = b.bin BinaryOp.or zf.v (b.icmp Predicate.ne sf.v of.v);
          runs = rw (zf.runs, sf.runs, of.runs, ◌>>=◌) refl;
          flag =
              or-IsFlag zf.v (b.icmp Predicate.ne sf.v of.v) (flag Facet.zf) _ zf.flag
                (ne-IsFlag sf.v of.v (flag Facet.sf) (flag Facet.of) sf.flag of.flag);
        }

    -- The conditions that FlagCond negates, or not.
    from_even :
        (cond : Condition) (n : Bool)
        → is_negated cond ≡ false
        → Yields (even_cond b (without_negation cond) s) s n
        → Yields (flag_cond b cond s) s n
    unfolding flag_cond
    from_even cond n e y = record { v = y.v; runs = rw (y.runs, e, ◌>>=◌) refl; flag = y.flag }

    from_odd :
        (cond : Condition) (n : Bool)
        → is_negated cond ≡ true
        → Yields (even_cond b (without_negation cond) s) s n
        → Yields (flag_cond b cond s) s (not n)
    unfolding flag_cond
    from_odd cond n e y = record {
      v = b.create_not y.v;
      runs = rw (y.runs, e, ◌>>=◌) refl;
      flag = not-IsFlag y.v n y.flag;
    }

    -- For a builder that obeys the laws of LLVM's integer operations: in a state with a value of
    -- one bit for each flag, FlagCond succeeds for every condition, changes nothing, and gives the
    -- value of the condition by the table of condition codes.
    pub flag_cond_correct :
        (cond : Condition) → Yields (flag_cond b cond s) s (condition_of cond flag)
    unfolding even_cond flags_has
    flag_cond_correct Condition.o = from_even Condition.o _ refl (get_flag-Yields Facet.of refl)
    flag_cond_correct Condition.no = from_odd Condition.no _ refl (get_flag-Yields Facet.of refl)
    flag_cond_correct Condition.c = from_even Condition.c _ refl (get_flag-Yields Facet.cf refl)
    flag_cond_correct Condition.nc = from_odd Condition.nc _ refl (get_flag-Yields Facet.cf refl)
    flag_cond_correct Condition.z = from_even Condition.z _ refl (get_flag-Yields Facet.zf refl)
    flag_cond_correct Condition.nz = from_odd Condition.nz _ refl (get_flag-Yields Facet.zf refl)
    flag_cond_correct Condition.be = from_even Condition.be _ refl be_lem
    flag_cond_correct Condition.a = from_odd Condition.a _ refl be_lem
    flag_cond_correct Condition.s = from_even Condition.s _ refl (get_flag-Yields Facet.sf refl)
    flag_cond_correct Condition.ns = from_odd Condition.ns _ refl (get_flag-Yields Facet.sf refl)
    flag_cond_correct Condition.p = from_even Condition.p _ refl (get_flag-Yields Facet.pf refl)
    flag_cond_correct Condition.np = from_odd Condition.np _ refl (get_flag-Yields Facet.pf refl)
    flag_cond_correct Condition.l = from_even Condition.l _ refl l_lem
    flag_cond_correct Condition.ge = from_odd Condition.ge _ refl l_lem
    flag_cond_correct Condition.le = from_even Condition.le _ refl le_lem
    flag_cond_correct Condition.g = from_odd Condition.g _ refl le_lem
