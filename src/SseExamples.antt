-- ===== src/SseExamples.antt =====
-- Runs of the handlers of src/lifter-sse.cc on concrete vectors.
use rellume.Prelude.{
  ℕ, ◌+◌, ◌-◌, ◌*◌, ◌^◌, ◌/◌, ◌%◌, ◌<◌, ◌≤◌, ◌≡◌, ◌==◌, ltb, if◌then◌else◌, Bool, true, false, some,
  refl, [], ◌∷◌, arith, get_elem?,
}
use rellume.Facet.{Facet, resolve, vnt, find_vector, vector_facets}
use rellume.Instr.{Instr, InstrType, Op, reg_op, imm_op, RegType}
use rellume.Ir.{int, vector, BinaryOp}
use rellume.Ir.Meaning.Constant.{Constant, num, constants, constants-Meaning}
use rellume.Ir.Meaning.ConstantVector.{constants-VectorMeaning}
use rellume.RegFile.{value}
use rellume.RegFile.{access_reg_facet}
use rellume.RegFile.Access.{force, get_reg_facet, get_reg as rf_get_reg}
use rellume.Lifter.Monad.{LiftState, get_reg}
use rellume.Lifter.Operand.{op_load, op_load_at, map_reg, align_max}
use rellume.Lifter.Vector.{store_vec, fill_register, op_load_aligned}
use rellume.Lifter.Sse.Saturate.{lift_sse_paddsub_saturate}
use rellume.Lifter.Sse.SaturateLaws.{lift_sse_paddsub_saturate_correct, Saturates}
use rellume.Lifter.Sse.PackedLaws.{lift_sse_pshift_element_correct, lift_sse_pavg_correct, shifted}
use rellume.Lifter.Sse.Packed.{lift_sse_pshift_element, lift_sse_pavg}
use rellume.Lifter.Sse.Shuffle.{lift_sse_pshift_bytes, lift_sse_unpck, lift_sse_pshufw}
use rellume.Lifter.Sse.ShuffleLaws.{lift_sse_pshift_bytes_correct, fill_register-lane}
use rellume.Lifter.Sse.Masks.{
  pshufw_mask, shufps_mask, pshufd_mask, insertps_mask, shift_bytes_mask,
}
use rellume.Lifter.Sse.MaskLaws.{masks-lt, lift_sse_unpck_correct}
use rellume.Lifter.Sse.WordShuffle.{lift_sse_pshuflw_correct, lift_sse_pshufhw_repeats}
use rellume.Examples.{config, registers, start}

-- Vector registers: bytes that count up from the register's number.
abbrev bytes : ℕ → Constant
bytes n = record { type_of = vector (int 8) 16; elements = λ i. i + n }

abbrev words : ℕ → Constant
words n = record { type_of = vector (int 16) 8; elements = λ i. i + n }

abbrev byte_state : LiftState Constant
byte_state = record start { regfile = record registers { regs_sse = λ n f. value (bytes n) } }

-- Register 0 has words, register 1 an amount of 64 bits.
abbrev shift_state : LiftState Constant
shift_state = record start {
  regfile = record registers { regs_sse = λ n f. value (if n == 1 then num 64 3 else words n) };
}

abbrev vec_op : ℕ → Op
vec_op n = reg_op 16 (record { rt = RegType.vec; ri = n })

abbrev two_registers : InstrType → Instr
two_registers t = record {
  ty = t;
  address = 4096;
  len = 4;
  opsz = 16;
  addrsz = 8;
  has_rep = false;
  has_repnz = false;
  ops = vec_op 0 ∷ vec_op 1 ∷ [];
}

abbrev lane : Constant → ℕ → ℕ
lane = constants-VectorMeaning.lane

bytes_0 : op_load constants config (vec_op 0) Facet.v16i8 byte_state ≡ some (bytes 0, byte_state)
unfolding op_load resolve map_reg get_reg rf_get_reg force access_reg_facet get_reg_facet
bytes_0 = refl

bytes_1 : op_load constants config (vec_op 1) Facet.v16i8 byte_state ≡ some (bytes 1, byte_state)
unfolding op_load resolve map_reg get_reg rf_get_reg force access_reg_facet get_reg_facet
bytes_1 = refl

words_0 : op_load constants config (vec_op 0) Facet.vi16 shift_state ≡ some (words 0, shift_state)
unfolding op_load resolve map_reg get_reg rf_get_reg force access_reg_facet get_reg_facet vnt
    find_vector vector_facets
words_0 = refl

amount_1 : op_load constants config (vec_op 1) Facet.i64 shift_state ≡ some (num 64 3, shift_state)
unfolding op_load resolve map_reg get_reg rf_get_reg force access_reg_facet get_reg_facet
amount_1 = refl

lift_sse_paddsub_saturate_correct_example :
    (v : Constant) × (lift_sse_paddsub_saturate constants config
        (two_registers InstrType.sse_paddsb)
        BinaryOp.add
        true
        Facet.v16i8
        byte_state
      ≡ store_vec constants config (vec_op 0) v byte_state)
    × ((i : ℕ) → i < 16 → Saturates false true 7 (lane (bytes 0) i) (lane (bytes 1) i) (lane v i))
lift_sse_paddsub_saturate_correct_example =
    lift_sse_paddsub_saturate_correct constants constants-Meaning constants-VectorMeaning config
      (two_registers InstrType.sse_paddsb) false true Facet.v16i8 byte_state byte_state byte_state
      (bytes 0) (bytes 1) 7 16 bytes_0 bytes_1 (omega arith) refl refl

lift_sse_pshift_element_correct_example :
    (v : Constant) × (lift_sse_pshift_element constants config
        (two_registers InstrType.sse_psllw)
        BinaryOp.shl
        Facet.vi16
        shift_state
      ≡ store_vec constants config (vec_op 0) v shift_state)
    × ((i : ℕ) → i < 8 → lane v i ≡ shifted BinaryOp.shl 16 (lane (words 0) i) 3)
unfolding constants-Meaning
lift_sse_pshift_element_correct_example =
    lift_sse_pshift_element_correct constants constants-Meaning constants-VectorMeaning config
      (two_registers InstrType.sse_psllw) BinaryOp.shl Facet.vi16 shift_state shift_state
      shift_state (words 0) (num 64 3) 16 8 refl words_0 amount_1 refl refl (omega arith)
      (omega arith)

lift_sse_pavg_correct_example :
    (v : Constant) × (lift_sse_pavg constants config
        (two_registers InstrType.sse_pavgb)
        Facet.v16i8
        byte_state
      ≡ store_vec constants config (vec_op 0) v byte_state)
    × ((i : ℕ) → i < 16 → lane v i ≡ (lane (bytes 0) i + lane (bytes 1) i + 1) / 2)
lift_sse_pavg_correct_example =
    lift_sse_pavg_correct constants constants-Meaning constants-VectorMeaning config
      (two_registers InstrType.sse_pavgb) Facet.v16i8 byte_state byte_state byte_state (bytes 0)
      (bytes 1) 8 16 bytes_0 bytes_1 refl refl (omega arith)

-- PSRLDQ by three bytes
abbrev byte_shift_inst : Instr
byte_shift_inst = record (two_registers InstrType.sse_psrldq) { ops = vec_op 0 ∷ imm_op 1 3 ∷ [] }

lift_sse_pshift_bytes_correct_example :
    (v : Constant) × (lift_sse_pshift_bytes constants config byte_shift_inst byte_state
      ≡ store_vec constants config (vec_op 0) v byte_state)
    × ((i : ℕ) → i < 16 → lane v i ≡ (if ltb (i + 3) 16 then lane (bytes 0) (i + 3) else 0))
lift_sse_pshift_bytes_correct_example =
    lift_sse_pshift_bytes_correct constants constants-Meaning constants-VectorMeaning config
      byte_shift_inst byte_state byte_state (bytes 0) 3 refl bytes_0 refl

lift_sse_unpck_correct_example :
    (v : Constant) × (lift_sse_unpck constants config
        (two_registers InstrType.sse_punpckhbw)
        Facet.v16i8
        byte_state
      ≡ store_vec constants config (vec_op 0) v byte_state)
    × ((i : ℕ)
        → i < 16
        → lane v i
          ≡ (if i % 2 == 0 then lane (bytes 0) (8 + i / 2) else lane (bytes 1) (8 + i / 2)))
unfolding op_load_at op_load
lift_sse_unpck_correct_example =
    lift_sse_unpck_correct constants constants-Meaning constants-VectorMeaning config
      (two_registers InstrType.sse_punpckhbw) Facet.v16i8 byte_state byte_state byte_state (bytes 0)
      (bytes 1) (int 8) 16 8 refl bytes_0 bytes_1 refl refl

fill_register-lane_example :
    lane
      (fill_register constants
        (record { type_of = vector (int 32) 2; elements = λ i. i })
        4
        (record { type_of = vector (int 32) 4; elements = λ i. 7 }))
      3
    ≡ (if ltb 3 2
        then lane (record { type_of = vector (int 32) 2; elements = λ i. i }) 3
        else lane (record { type_of = vector (int 32) 4; elements = λ i. 7 }) 3)
fill_register-lane_example =
    fill_register-lane constants constants-Meaning constants-VectorMeaning
      (record { type_of = vector (int 32) 2; elements = λ i. i })
      (record { type_of = vector (int 32) 4; elements = λ i. 7 }) (int 32) 2 4 3 refl refl
      (omega arith) (omega arith)

masks-lt_example :
    ((i k : ℕ) → get_elem? (shufps_mask 228) i ≡ some k → k < 8)
    × ((i k : ℕ) → get_elem? (pshufd_mask 228) i ≡ some k → k < 4)
    × ((off i k : ℕ) → off ≤ 4 → get_elem? (pshufw_mask 228 off) i ≡ some k → k < 8)
    × ((i k : ℕ) → get_elem? (insertps_mask 228) i ≡ some k → k < 8)
    × ((right : Bool) (shift i k : ℕ)
        → shift ≤ 16
        → get_elem? (shift_bytes_mask right shift) i ≡ some k
        → k < 32)
masks-lt_example = masks-lt 228

abbrev word_state : LiftState Constant
word_state = record start { regfile = record registers { regs_sse = λ n f. value (words n) } }

words_1 :
    op_load_aligned constants config (vec_op 1) Facet.vi16 align_max word_state
    ≡ some (words 1, word_state)
unfolding op_load_at resolve map_reg get_reg rf_get_reg force access_reg_facet get_reg_facet vnt
    find_vector vector_facets
words_1 = refl

-- The byte 228 selects the elements 0, 1, 2 and 3; as a signed byte it is -28.
abbrev word_shuffle : InstrType → Instr
word_shuffle t = record (two_registers t) {
  ops = vec_op 0 ∷ vec_op 1 ∷ imm_op 1 (2 ^ 64 - 28) ∷ [];
}

lift_sse_pshuflw_correct_example :
    (v : Constant) × (lift_sse_pshufw constants config
        (word_shuffle InstrType.sse_pshuflw)
        0
        word_state
      ≡ store_vec constants config (vec_op 0) v word_state)
    × ((i : ℕ) → i < 8 → lane v i ≡ lane (words 1) (if ltb i 4 then 228 / 2 ^ (2 * i) % 4 else i))
lift_sse_pshuflw_correct_example =
    lift_sse_pshuflw_correct constants constants-Meaning constants-VectorMeaning config
      (word_shuffle InstrType.sse_pshuflw) word_state word_state (words 1) (int 16) (2 ^ 64 - 28)
      refl words_1 refl

lift_sse_pshufhw_repeats_example :
    (v : Constant) × (lift_sse_pshufw constants config
        (word_shuffle InstrType.sse_pshufhw)
        4
        word_state
      ≡ store_vec constants config (vec_op 0) v word_state)
    × ((i : ℕ) → i < 8 → lane v i ≡ lane (words 1) (if ltb i 4 then i else 7))
lift_sse_pshufhw_repeats_example =
    lift_sse_pshufhw_repeats constants constants-Meaning constants-VectorMeaning config
      (word_shuffle InstrType.sse_pshufhw) word_state word_state (words 1) (int 16) (2 ^ 64 - 28)
      refl words_1 refl (omega arith) (omega arith)
