-- ===== src/DecoderExamples.antt =====
-- Runs of the decoder's loops on concrete code.
use mathlib.Core.Path.{subst}
use rellume.Prelude.{
  ℕ, zero, suc, ◌≡◌, ◌∙◌, sym, ltb, if◌then◌else◌, Option, none, some, some_inj, List, [], ◌∷◌,
  length, get_elem?, refl, arith, false, true, Bool, ◌⊎◌, inl, inr,
}
use rellume.Instr.{Instr, InstrType}
use rellume.Decoder.{
  DecodeState, scan, all_stop, turn, fetch, add_decoded, turn_after, instr_flags, successors, Place,
  update, split,
}
use rellume.Decoder.Places.{Consistent, update_cases}
use rellume.Decoder.Scan.{Scanned, scan_correct}
use rellume.Decoder.{visit, decode_loop}
use rellume.Decoder.Lifting.{decode, initial}
use rellume.Decoder.Total.{Decoded, decode_loop_correct}
use rellume.Decoder.Decode.{Outcome, decode_correct}
use rellume.Decoder.Visit.{Visited, visit_correct}
use rellume.Decoder.Split.{InBlocks, InBlock, SplitAt, split_correct}

-- Memory in which every address holds an instruction of one byte without an effect, but for those
-- from 8 on, which cannot be read.
abbrev nop_at : ℕ → Instr
nop_at addr = record {
  ty = InstrType.nop;
  address = addr;
  len = 1;
  opsz = 0;
  addrsz = 8;
  has_rep = false;
  has_repnz = false;
  ops = [];
}

abbrev read_nops : ℕ → ℕ × List ℕ
read_nops addr = if ltb addr 8 then (1, 0x90 ∷ []) else (0, [])

abbrev decode_nop : List ℕ → ℕ → Option Instr
decode_nop bytes sz = some (nop_at 0)

abbrev nothing_decoded : DecodeState
nothing_decoded = record { addr_queue = []; insts = []; blocks = []; addr_map = λ a. none }

nothing_decoded-Consistent : Consistent nothing_decoded
nothing_decoded-Consistent = record { at = λ a p e. cc; back = λ i inst e. cc }

scan_correct_example :
    Scanned
      (scan read_nops decode_nop false all_stop 18446744073709551617 5 nothing_decoded)
      5
      nothing_decoded
scan_correct_example =
    scan_correct read_nops decode_nop false all_stop 18446744073709551617 5 nothing_decoded
      (omega arith) (omega arith) nothing_decoded-Consistent

abbrev decoded_count : Option (Option Place × DecodeState) → Option ℕ
decoded_count none = none
decoded_count (some (joined, st)) = some (length st.insts)

-- Three instructions are decoded from address 5 on.
three_nops : decoded_count (scan read_nops decode_nop false all_stop 9 5 nothing_decoded) ≡ some 3
unfolding scan turn fetch add_decoded turn_after instr_flags successors
three_nops = refl

abbrev first_place : Place
first_place = record { block = 0; index = 0 }

abbrev second_place : Place
second_place = record { block = 0; index = 1 }

-- One block of two instructions.
abbrev two_nops : DecodeState
two_nops = record {
  addr_queue = [];
  insts = nop_at 0 ∷ nop_at 1 ∷ [];
  blocks = record { first = 0; last = 2 } ∷ [];
  addr_map = update (update (λ a. none) 0 first_place) 1 second_place;
}

two_entries :
    (a : ℕ) (p : Place)
    → two_nops.addr_map a ≡ some p
    → ((1 ≡ a) × (second_place ≡ p)) ⊎ ((0 ≡ a) × (first_place ≡ p))
two_entries a p e = elim (update_cases (update (λ a. none) 0 first_place) 1 a second_place) [
  | inl (same, hit) ↦ inl (same, some_inj (sym hit ∙ e))
  | inr (_, miss) ↦ elim (update_cases (λ a. none) 0 a first_place) [
    | inl (same, hit) ↦ inr (same, some_inj (sym hit ∙ sym miss ∙ e))
    | inr (_, empty) ↦ cc
  ]
]

abbrev At : ℕ → Place → Type 0
At a p = (inst : Instr) × (get_elem? two_nops.insts p.index ≡ some inst) × (inst.address ≡ a)

abbrev Back : ℕ → Instr → Type 0
Back i inst =
    (blk : ℕ) × (two_nops.addr_map inst.address ≡ some (record { block = blk; index = i }))

two-Back : (i : ℕ) (inst : Instr) → get_elem? two_nops.insts i ≡ some inst → Back i inst
two-Back zero inst e = subst (Back 0) (some_inj e) (0, refl)
two-Back (suc zero) inst e = subst (Back 1) (some_inj e) (0, refl)
two-Back (suc (suc i)) inst e = cc

two_nops-Consistent : Consistent two_nops
two_nops-Consistent = record {
  at = λ a p e. elim (two_entries a p e) [
    | inl (here, q) ↦ subst (At a) q (nop_at 1, refl, here)
    | inr (here, q) ↦ subst (At a) q (nop_at 0, refl, here)
  ];
  back = two-Back;
}

two_nops-InBlocks : InBlocks two_nops
two_nops-InBlocks a p e = elim (two_entries a p e) [
  | inl (_, q) ↦ subst (InBlock two_nops) q (record {
    range = record { first = 0; last = 2 };
    found = refl;
    from = omega arith;
    to = omega arith;
    bound = omega arith;
  })
  | inr (_, q) ↦ subst (InBlock two_nops) q (record {
    range = record { first = 0; last = 2 };
    found = refl;
    from = omega arith;
    to = omega arith;
    bound = omega arith;
  })
]

split_correct_example : SplitAt (split second_place two_nops) two_nops 1
split_correct_example =
    split_correct 1 second_place two_nops two_nops-Consistent two_nops-InBlocks refl

visit_correct_example :
    Visited (visit read_nops decode_nop false all_stop 18446744073709551617 0 two_nops)
visit_correct_example =
    visit_correct read_nops decode_nop false all_stop 18446744073709551617 0 two_nops (omega arith)
      (omega arith) two_nops-Consistent two_nops-InBlocks

-- A function that takes every instruction and counts them.
abbrev accept : ℕ → Instr → ℕ → Bool × ℕ
accept block_addr inst n = (true, suc n)

decode_loop_correct_example : Decoded (
    decode_loop read_nops decode_nop false all_stop 55340232221128654850 18446744073709551617
      (initial 5))
decode_loop_correct_example =
    decode_loop_correct read_nops decode_nop false all_stop 55340232221128654850
      18446744073709551617 5 (omega arith) (omega arith) (omega arith)

decode_correct_example :
    (st : DecodeState) × (code : ℕ) × (s' : ℕ) × (decode_loop read_nops decode_nop false all_stop
        55340232221128654850 18446744073709551617
        (initial 5)
      ≡ some st)
    × (decode accept read_nops decode_nop false all_stop 55340232221128654850 18446744073709551617 5
          0
        ≡ some (code, s'))
    × Outcome accept st 0 code
decode_correct_example =
    decode_correct accept read_nops decode_nop false all_stop 55340232221128654850
      18446744073709551617 5 0 (omega arith) (omega arith) (omega arith)
