-- ===== src/Lifter/FlagCalc.antt =====
-- FlagCalcAdd and FlagCalcSub of src/lifter-flags.cc: the states that their runs end in, as
-- equations.
use rellume.Prelude.{ℕ, ◌≡◌, if◌then◌else◌, Bool, true, false, some, refl, ap, ◌∙◌}
use rellume.Facet.{Facet}
use rellume.Ir.{Builder, int, BinaryOp, CastOp, Predicate, int_width}
use rellume.Ir.Meaning.{Meaning}
use rellume.RegFile.{flags_has}
use rellume.Lifter.Monad.{LiftState, Config, set_flag, skip, ◌>>=◌}
use rellume.Lifter.Flags.{
  flag_calc_z, flag_calc_s, flag_calc_p, flag_calc_a, flag_calc_add, flag_calc_sub, zero_of, parity,
  adjust, add_overflow,
}
use rellume.Lifter.FlagState.{put_flag, set_flag-eq}

module _ {V : Type 0} (b : Builder V) (m : Meaning b) where
  open b use {ty, null, bin, icmp}

  calc_z :
      (v : V) (w : ℕ) (s : LiftState V)
      → ty v ≡ int w
      → flag_calc_z b v s ≡ some (tt, put_flag b Facet.zf (icmp Predicate.eq v (zero_of b v)) s)
  unfolding flag_calc_z flags_has
  calc_z v w s t = set_flag-eq b Facet.zf _ s (m.icmp_ty Predicate.eq v _ w t) refl

  calc_s :
      (v : V) (w : ℕ) (s : LiftState V)
      → ty v ≡ int w
      → flag_calc_s b v s ≡ some (tt, put_flag b Facet.sf (icmp Predicate.slt v (zero_of b v)) s)
  unfolding flag_calc_s flags_has
  calc_s v w s t = set_flag-eq b Facet.sf _ s (m.icmp_ty Predicate.slt v _ w t) refl

  pub parity_ty : (v : V) → ty (parity b v) ≡ int 1
  parity_ty v = m.not_ty _ ∙ m.cast_ty CastOp.trunc _ (int 1)

  calc_p :
      (v : V) (s : LiftState V) → flag_calc_p b v s ≡ some (tt, put_flag b Facet.pf (parity b v) s)
  unfolding flag_calc_p flags_has
  calc_p v s = set_flag-eq b Facet.pf _ s (parity_ty v) refl

  pub masked_ty :
      (res lhs rhs : V) (w : ℕ)
      → ty lhs ≡ int w
      → ty (bin BinaryOp.and (bin BinaryOp.xor (bin BinaryOp.xor lhs rhs) res) (b.const_int w 16))
        ≡ int w
  masked_ty res lhs rhs w t =
      m.bin_ty BinaryOp.and _ _ ∙ m.bin_ty BinaryOp.xor _ _ ∙ m.bin_ty BinaryOp.xor _ _ ∙ t

  calc_a :
      (res lhs rhs : V) (w : ℕ) (s : LiftState V)
      → ty res ≡ int w
      → ty lhs ≡ int w
      → flag_calc_a b res lhs rhs s ≡ some (tt, put_flag b Facet.af (adjust b res lhs rhs w) s)
  unfolding flag_calc_a flags_has
  calc_a res lhs rhs w s t u =
      rw (ap int_width t)
        (set_flag-eq b Facet.af _ s (m.icmp_ty Predicate.ne _ _ w (masked_ty res lhs rhs w u)) refl)

  -- The states after the four flags that both functions set first, and after the last two.
  abbrev pub after_four : V → V → V → V → ℕ → LiftState V → LiftState V
  after_four zf_val res lhs rhs w s = put_flag b Facet.af (adjust b res lhs rhs w) (
      put_flag b Facet.pf (parity b res) (
        put_flag b Facet.sf (icmp Predicate.slt res (zero_of b res))
          (put_flag b Facet.zf zf_val s)))

  abbrev pub after_carry : Bool → V → LiftState V → LiftState V
  after_carry true cf_val s = s
  after_carry false cf_val s = put_flag b Facet.cf cf_val s

  abbrev pub zero_test : V → V
  zero_test res = icmp Predicate.eq res (zero_of b res)

  abbrev pub after_add : Config V → V → V → V → ℕ → Bool → LiftState V → LiftState V
  after_add cfg res lhs rhs w skip_carry s =
      put_flag b Facet.of (add_overflow b cfg.enable_overflow_intrinsics res lhs rhs) (
        after_carry skip_carry (icmp Predicate.ult res lhs)
          (after_four (zero_test res) res lhs rhs w s))

  carry_step :
      (skip_carry : Bool) (v : V) (s : LiftState V)
      → ty v ≡ int 1
      → (if skip_carry then skip else set_flag b Facet.cf v) s
        ≡ some (tt, after_carry skip_carry v s)
  unfolding flags_has
  carry_step true v s t = refl
  carry_step false v s t = set_flag-eq b Facet.cf v s t refl

  add_overflow_ty :
      (use_intrinsic : Bool) (res lhs rhs : V) (w : ℕ)
      → ty lhs ≡ int w
      → ty (add_overflow b use_intrinsic res lhs rhs) ≡ int 1
  add_overflow_ty true res lhs rhs w t = m.sadd_ty lhs rhs
  add_overflow_ty false res lhs rhs w t =
      m.icmp_ty Predicate.slt _ _ w
        (m.bin_ty BinaryOp.and _ _ ∙ m.not_ty _ ∙ m.bin_ty BinaryOp.xor lhs rhs ∙ t)

  pub flag_calc_add-eq :
      (cfg : Config V) (res lhs rhs : V) (w : ℕ) (skip_carry : Bool) (s : LiftState V)
      → ty res ≡ int w
      → ty lhs ≡ int w
      → flag_calc_add b cfg res lhs rhs skip_carry s
        ≡ some (tt, after_add cfg res lhs rhs w skip_carry s)
  unfolding flag_calc_add flags_has
  flag_calc_add-eq cfg res lhs rhs w skip_carry s t u =
      rw
        (
          calc_z res w s t,
          calc_s res w _ t,
          calc_p res _,
          calc_a res lhs rhs w _ t u,
          carry_step skip_carry _ _ (m.icmp_ty Predicate.ult res lhs w t),
          ◌>>=◌,
        )
        (set_flag-eq b Facet.of _ _ (add_overflow_ty _ res lhs rhs w u) refl)

  abbrev pub after_sub : V → V → V → ℕ → Bool → Bool → LiftState V → LiftState V
  after_sub res lhs rhs w skip_carry alt_zf s =
      put_flag b Facet.of
        (icmp Predicate.ne (icmp Predicate.slt res (zero_of b res)) (icmp Predicate.slt lhs rhs))
        (after_carry skip_carry (icmp Predicate.ult lhs rhs) (
          after_four (if alt_zf then icmp Predicate.eq lhs rhs else zero_test res) res lhs rhs w s))

  zf_step :
      (alt_zf : Bool) (res lhs rhs : V) (w : ℕ) (s : LiftState V)
      → ty res ≡ int w
      → ty lhs ≡ int w
      → set_flag b Facet.zf (if alt_zf then icmp Predicate.eq lhs rhs else zero_test res) s
        ≡ some (
          tt,
          put_flag b Facet.zf (if alt_zf then icmp Predicate.eq lhs rhs else zero_test res) s,
        )
  unfolding flags_has
  zf_step true res lhs rhs w s t u =
      set_flag-eq b Facet.zf _ s (m.icmp_ty Predicate.eq _ _ w u) refl
  zf_step false res lhs rhs w s t u =
      set_flag-eq b Facet.zf _ s (m.icmp_ty Predicate.eq _ _ w t) refl

  pub flag_calc_sub-eq :
      (res lhs rhs : V) (w : ℕ) (skip_carry alt_zf : Bool) (s : LiftState V)
      → ty res ≡ int w
      → ty lhs ≡ int w
      → flag_calc_sub b res lhs rhs skip_carry alt_zf s
        ≡ some (tt, after_sub res lhs rhs w skip_carry alt_zf s)
  unfolding flag_calc_sub flags_has
  flag_calc_sub-eq res lhs rhs w skip_carry alt_zf s t u =
      rw
        (
          zf_step alt_zf res lhs rhs w s t u,
          set_flag-eq b Facet.sf _ _ (m.icmp_ty Predicate.slt res _ w t) refl,
          calc_p res _,
          calc_a res lhs rhs w _ t u,
          carry_step skip_carry _ _ (m.icmp_ty Predicate.ult lhs rhs w u),
          ◌>>=◌,
        )
        (set_flag-eq b Facet.of _ _
          (m.icmp_ty Predicate.ne _ _ 1 (m.icmp_ty Predicate.slt res _ w t)) refl)
