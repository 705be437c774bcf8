-- ===== src/Examples.antt =====
-- Runs of the definitions on concrete values: the IR has constants for values, and the state of the
-- lifter is one at the begin of a block.
use rellume.Prelude.{
  ◌⊎◌, ℕ, ◌≤◌, ◌*◌, bit, ◌<◌, ◌+◌, ◌≡◌, ◌%◌, ◌^◌, ◌==◌, ltb, Bool, true, false, none, some, refl,
  [], arith,
}
use rellume.Facet.{Facet, in_bits, vnt, size, resolve, facet_eq, find_vector, vector_facets}
use rellume.Facet.Laws.{size-in_bits, size-vnt, resolve_register, resolve-IsConcrete, IsConcrete}
use rellume.Register.{gp_reg, register_set_bit_idx}
use rellume.Register.Laws.{register_set_bit_idx-determines, register_set_bit_idx-flag_inj}
use rellume.CallConv.{hhvm_arg_index, hhvm_ret_index, cpu_struct_param_idx}
use rellume.CallConv.Laws.{hhvm_arg_index-inj, hhvm_ret_index-inj}
use rellume.Ir.{BinaryOp}
use rellume.Ir.Meaning.Constant.{Constant, num, element, constants, constants-Meaning}
use rellume.RegFile.{RegFile, value}
use rellume.Lifter.Monad.{LiftState, Config, sptr_conv, hhvm_conv}
use rellume.Lifter.Flags.{flag_calc_add, flag_calc_sub, flag_cond, Condition}
use rellume.Lifter.FlagCorrect.{
  SetsFlags, sum_flags, difference_flags, flag_calc_add_correct, flag_calc_sub_correct,
}
use rellume.Lifter.Compare.{compare_correct}
use rellume.Lifter.Monad.{get_reg, get_flag}
use rellume.Lifter.Operand.{store_gp_facet}
use rellume.Lifter.PartValue.{high_byte}
use rellume.Lifter.PartStore.{
  store_gp_facet-replace_part, store_gp_facet-zero_extend, store_gp_facet-keeps_others,
}
use rellume.Lifter.Arith.{with_carry}
use rellume.Lifter.CarryLoss.{adc_loses_carry}
use rellume.Lifter.FlagState.{flag_num}
use rellume.Instr.{InstrType}
use rellume.RegFile.{flags_has, gp_has, access_reg_facet, read_slot}
use rellume.RegFile.Access.{get_reg as rf_get_reg, get_reg_facet, force}
use rellume.Lifter.FlagCond.{Yields, flag_cond_correct, HasFlags}

abbrev pub config : Config Constant
config = record {
  enable_overflow_intrinsics = false;
  call_ret_clobber_flags = false;
  use_native_segment_base = false;
  global_base_addr = 0;
  global_base_value = none;
  entry_ip = 4096;
  entry_ip_value = num 64 4096;
  sptr_raw = num 64 8192;
  sptr = λ n. num 64 (8192 + n);
  callconv = sptr_conv;
  call_function = none;
  syscall_implementation = none;
  instr_overrides = λ t. none;
  fadec = record { reg_none = 63; reg_ip = 16; reg_ah = 4; reg_ds = 3; reg_fs = 4; reg_gs = 5 };
}

-- The flags are set with even positions on.
abbrev flag_value : Facet → Bool
flag_value Facet.cf = true
flag_value Facet.sf = true
flag_value f = false

abbrev pub registers : RegFile Constant
registers = record {
  insert_block = 0;
  regs_gp = λ n f. value (num 64 n);
  regs_sse = λ n f. value (num 128 n);
  reg_ip = value (num 64 4096);
  flags = λ f. value (num 1 (bit (flag_value f)));
  dirty_regs = λ n. false;
  cleaned_regs = λ n. false;
  phis = [];
}

abbrev pub start : LiftState Constant
start = record { regfile = registers; effects = []; loads = 0; call_conv_packs = [] }

abbrev lhs : Constant
lhs = num 8 200

abbrev rhs : Constant
rhs = num 8 100

flag_calc_add_correct_example :
    SetsFlags constants constants-Meaning
      (flag_calc_add constants config (constants.bin BinaryOp.add lhs rhs) lhs rhs false start)
      start
      (sum_flags 8 200 100)
      false
unfolding constants-Meaning
flag_calc_add_correct_example =
    flag_calc_add_correct constants constants-Meaning (constants.bin BinaryOp.add lhs rhs) lhs rhs 8
      false start config refl refl refl (omega arith)

flag_calc_sub_correct_example :
    SetsFlags constants constants-Meaning
      (flag_calc_sub constants (constants.bin BinaryOp.sub lhs rhs) lhs rhs false true start)
      start
      (difference_flags 8 200 100)
      false
unfolding constants-Meaning
flag_calc_sub_correct_example =
    flag_calc_sub_correct constants constants-Meaning (constants.bin BinaryOp.sub lhs rhs) lhs rhs 8
      false start true refl refl refl (omega arith)

bit_den : (c : Bool) → bit c % 2 ^ 1 ≡ bit c
bit_den true = refl
bit_den false = refl

start-HasFlags : HasFlags constants constants-Meaning start flag_value
unfolding constants-Meaning
start-HasFlags f h = record {
  v = num 1 (bit (flag_value f));
  found = refl;
  flag = record { ty = refl; den = bit_den (flag_value f) };
}

flag_cond_correct_example :
    Yields constants constants-Meaning (flag_cond constants Condition.be start) start true
flag_cond_correct_example =
    flag_cond_correct constants constants-Meaning start flag_value start-HasFlags Condition.be

compare_correct_example :
    (after : LiftState Constant) × (flag_calc_sub constants
        (constants.bin BinaryOp.sub lhs rhs)
        lhs
        rhs
        false
        true
        start
      ≡ some (tt, after))
    × Yields constants constants-Meaning (flag_cond constants Condition.l after) after true
unfolding constants-Meaning
compare_correct_example =
    compare_correct constants constants-Meaning (constants.bin BinaryOp.sub lhs rhs) lhs rhs 8 true
      start flag_value refl refl refl (omega arith) Condition.l start-HasFlags

register_set_bit_idx-determines_example : 3 < 40 × gp_reg 3 ≡ gp_reg 3
unfolding register_set_bit_idx
register_set_bit_idx-determines_example =
    register_set_bit_idx-determines (gp_reg 3) (gp_reg 3) Facet.i64 Facet.i8 3 (omega arith)
      (omega arith) refl refl

register_set_bit_idx-flag_inj_example : Facet.af ≡ Facet.af
unfolding register_set_bit_idx
register_set_bit_idx-flag_inj_example = register_set_bit_idx-flag_inj Facet.af Facet.af 20 refl refl

hhvm_arg_index-inj_example :
    ltb 13 14 ≡ true × (13 == cpu_struct_param_idx hhvm_conv) ≡ false × gp_reg 5 ≡ gp_reg 5
unfolding hhvm_arg_index
hhvm_arg_index-inj_example =
    hhvm_arg_index-inj (gp_reg 5) (gp_reg 5) 13 (omega arith) (omega arith) refl refl

hhvm_ret_index-inj_example : ltb 11 14 ≡ true × (11 == 12) ≡ false × gp_reg 5 ≡ gp_reg 5
unfolding hhvm_ret_index
hhvm_ret_index-inj_example =
    hhvm_ret_index-inj (gp_reg 5) (gp_reg 5) 11 (omega arith) (omega arith) refl refl

size-in_bits_example : size Facet.i32 ≡ some 32
unfolding in_bits
size-in_bits_example = size-in_bits 32 Facet.i32 refl

size-vnt_example : size Facet.v4f32 ≡ some 128
unfolding vnt size find_vector vector_facets facet_eq
size-vnt_example = size-vnt 4 Facet.f32 Facet.v4f32 refl

resolve-IsConcrete_example : IsConcrete Facet.v4f32
unfolding resolve vnt find_vector vector_facets facet_eq
resolve-IsConcrete_example = resolve-IsConcrete Facet.vf32 Facet.v4f32 128 refl

resolve_register_example :
    (g : Facet) × (n : ℕ) × (resolve Facet.vf32 128 ≡ some g)
    × (size g ≡ some n)
    × ((g ≡ Facet.vf32) ⊎ ((size Facet.vf32 ≡ none) × (n ≡ 128)))
resolve_register_example = resolve_register Facet.vf32

store_gp_facet-replace_part_example :
    (s' : LiftState Constant) × (x : Constant) × (store_gp_facet constants config
        (gp_reg 3)
        Facet.i8h
        (num 8 200)
        start
      ≡ some (tt, s'))
    × (get_reg constants (gp_reg 3) Facet.i64 s' ≡ some (x, s'))
    × (element x 0 ≡ 200 * 2 ^ 8 + 3)
unfolding constants-Meaning get_reg rf_get_reg get_reg_facet access_reg_facet gp_has read_slot force
store_gp_facet-replace_part_example =
    store_gp_facet-replace_part constants config constants-Meaning 3 high_byte (num 8 200)
      (num 64 3) start start refl refl refl

store_gp_facet-zero_extend_example :
    (s' : LiftState Constant) × (x : Constant) × (store_gp_facet constants config
        (gp_reg 3)
        Facet.i32
        (num 32 200)
        start
      ≡ some (tt, s'))
    × (get_reg constants (gp_reg 3) Facet.i64 s' ≡ some (x, s'))
    × (element x 0 ≡ 200)
unfolding constants-Meaning
store_gp_facet-zero_extend_example =
    store_gp_facet-zero_extend constants config constants-Meaning 3 (num 32 200) start refl

store_gp_facet-keeps_others_example :
    (s' : LiftState Constant) × (store_gp_facet constants config
        (gp_reg 3)
        Facet.i8h
        (num 8 200)
        start
      ≡ some (tt, s'))
    × (s'.regfile.regs_gp 5 Facet.i64 ≡ value (num 64 5))
    × (s'.regfile.regs_sse ≡ registers.regs_sse)
    × (s'.regfile.flags ≡ registers.flags)
    × (s'.regfile.reg_ip ≡ registers.reg_ip)
    × (s'.effects ≡ [])
unfolding constants-Meaning get_reg rf_get_reg get_reg_facet access_reg_facet gp_has read_slot force
store_gp_facet-keeps_others_example =
    store_gp_facet-keeps_others constants config constants-Meaning 3 5 Facet.i64 high_byte
      (num 8 200) (num 64 3) start start refl refl refl

adc_loses_carry_example :
    (op2' : Constant) × (after : LiftState Constant) × (with_carry constants config InstrType.adc
        (num 8 255)
        start
      ≡ some (op2', start))
    × (flag_calc_add constants config (constants.bin BinaryOp.add lhs op2') lhs op2' false start
        ≡ some (tt, after))
    × (flag_num constants constants-Meaning after Facet.cf ≡ some 0)
    × (2 ^ 8 ≤ 200 + 255 + 1)
unfolding constants-Meaning get_flag get_reg rf_get_reg get_reg_facet access_reg_facet flags_has
    read_slot force
adc_loses_carry_example =
    adc_loses_carry constants constants-Meaning config lhs (num 8 255) (num 1 1) 8 start start refl
      refl refl (omega arith) refl refl refl
