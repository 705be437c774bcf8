-- ===== src/Decoder/Queue.antt =====
-- The queue of addresses in Function::Decode of src/lldecoder.cc.
use native.Mathlib.Nat.{mod-lt}
use rellume.Prelude.{
  ℕ, zero, suc, ◌+◌, ◌*◌, ◌^◌, ◌<◌, ◌≤◌, ◌≡◌, Bool, true, false, ◌&&◌, ◌||◌, not, if◌then◌else◌,
  Option, none, some, List, [], ◌∷◌, ◌++◌, length, length-append, arith, Bool-cases, Option-cases,
  inl, inr,
}
use rellume.Instr.{Instr, u64, end, op, pcrel?}
use rellume.Decoder.{
  DecodeStop, instr_stop, basicblock_stop, all_stop, Place, DecodeState, Turn, leave, go_on, fetch,
  add_decoded, turn_after, turn, instr_flags, successors, scan, is_call,
}
use rellume.Decoder.Places.{new_place}
use rellume.Decoder.Unmapped.{unmapped, unmapped-update}

-- All addresses of a queue have 64 bits.
abbrev pub InRange : List ℕ → Type 0
InRange [] = Unit {0}
InRange (a ∷ rest) = (a < 2 ^ 64) × InRange rest

pub InRange-append : (xs ys : List ℕ) → InRange xs → InRange ys → InRange (xs ++ ys)
InRange-append [] ys h k = k
InRange-append (x ∷ xs) ys (h, t) k = (h, InRange-append xs ys t k)

u64-lt : (n : ℕ) → u64 n < 2 ^ 64
u64-lt n = mod-lt n (omega arith)

next-lt : (size n : ℕ) → size ≡ 2 ^ 64 → u64 n < size
next-lt size n e = rw e (u64-lt n)

-- What is left to do: an address without an entry may add two addresses to the queue. The number of
-- addresses is a variable, so that it is not counted out.
abbrev pub work : ℕ → DecodeState → ℕ
work size st = 3 * unmapped size st.addr_map + length st.addr_queue

-- A state with an addressable queue that has no more to do than another.
abbrev pub Less : ℕ → DecodeState → DecodeState → Type 0
Less size st' st = InRange st'.addr_queue × (work size st' ≤ work size st)

abbrev TurnLess : ℕ → DecodeState → Turn → Type 0
TurnLess size st (leave joined st') = Less size st' st
TurnLess size st (go_on next st') = Less size st' st × (next < size)

abbrev Small : ℕ → List ℕ → Type 0
Small n xs = InRange xs × (length xs ≤ n)

if-Small : (c : Bool) (xs : List ℕ) → Small 1 xs → Small 1 (if c then xs else [])
if-Small true xs s = s
if-Small false xs s = (tt, omega arith)

both : (xs ys : List ℕ) → Small 1 xs → Small 1 ys → Small 2 (xs ++ ys)
both xs ys (p, l) (q, k) = (InRange-append xs ys p q, omega (arith, length-append xs ys, l, k))

target-Small :
    (inst : Instr) (target : Option ℕ)
    → Small 1 (elim target [ none ↦ [] | some off ↦ u64 (end inst + off) ∷ [] ])
target-Small inst none = (tt, omega arith)
target-Small inst (some off) = ((u64-lt (end inst + off), tt), omega arith)

abbrev ends : Instr → Bool
ends inst = (instr_flags inst.ty).breaks || (instr_flags inst.ty).breaks_cond

module _ (memacc : ℕ → ℕ × List ℕ) (fd_decode : List ℕ → ℕ → Option Instr) (call_function : Bool)
    (stop : DecodeStop) where
  pub successors-Small :
      (stop' : DecodeStop) (cur : ℕ) (inst : Instr)
      → Small 2 (successors memacc fd_decode call_function stop' cur inst)
  unfolding successors
  successors-Small stop' cur inst =
      both _ _
        (if-Small ((instr_flags inst.ty).breaks_cond || is_call inst.ty && call_function) _
          ((u64-lt (cur + inst.len), tt), omega arith))
        (if-Small ((instr_flags inst.ty).has_jmp_target && not (is_call inst.ty)) _
          (target-Small inst (pcrel? (op inst 0))))

  turn_after_less :
      (stop' : DecodeStop) (cur : ℕ) (inst : Instr) (size : ℕ) (st base : DecodeState)
      → size ≡ 2 ^ 64
      → InRange st.addr_queue
      → work size st + 2 ≤ work size base
      → TurnLess size base (turn_after memacc fd_decode call_function stop' cur inst st)
  unfolding turn_after
  turn_after_less instr_stop cur inst size st base e q w = (q, omega (arith, w))
  turn_after_less basicblock_stop cur inst size st base e q w = elim (Bool-cases (ends inst)) [
    | inl c ↦ rw c (q, omega (arith, w))
    | inr c ↦ rw c ((q, omega (arith, w)), (next-lt size (cur + inst.len) e))
  ]
  turn_after_less all_stop cur inst size st base e q w = elim (Bool-cases (ends inst)) [
    | inl c ↦
        let (r, l) = successors-Small all_stop cur inst in
        rw c (
          InRange-append st.addr_queue _ q r,
          omega (
            arith,
            l,
            w,
            length-append st.addr_queue
                (successors memacc fd_decode call_function all_stop cur inst),
          ),
        )
    | inr c ↦ rw c ((q, omega (arith, w)), (next-lt size (cur + inst.len) e))
  ]

  -- A new instruction leaves one address less.
  added_less :
      (cur : ℕ) (inst : Instr) (size : ℕ) (st : DecodeState)
      → cur < size
      → st.addr_map cur ≡ none
      → work size (add_decoded cur inst st) + 2 ≤ work size st
  unfolding add_decoded
  added_less cur inst size st h free =
      omega (arith, unmapped-update size cur (new_place st) st.addr_map h free)

  turn_less :
      (cur size : ℕ) (st : DecodeState)
      → size ≡ 2 ^ 64
      → cur < size
      → InRange st.addr_queue
      → TurnLess size st (turn memacc fd_decode call_function stop cur st)
  unfolding turn add_decoded
  turn_less cur size st e h q = elim (Option-cases (st.addr_map cur)) [
    | inr (p, f) ↦ rw (f, turn) (q, omega arith)
    | inl free ↦ elim (Option-cases (fetch memacc fd_decode call_function stop cur)) [
      | inl f ↦ rw (free, f, turn) (q, omega arith)
      | inr (inst, f) ↦
          rw (free, f, turn)
            (turn_after_less stop cur inst size (add_decoded cur inst st) st e q
              (added_less cur inst size st h free))
    ]
  ]

  abbrev pub ScanLess : ℕ → DecodeState → Option (Option Place × DecodeState) → Type 0
  ScanLess size st none = Unit {0}
  ScanLess size st (some (joined, after)) = Less size after st

  less_trans :
      (size : ℕ) (st' st : DecodeState) (r : Option (Option Place × DecodeState))
      → work size st' ≤ work size st
      → ScanLess size st' r
      → ScanLess size st r
  less_trans size st' st none w l = tt
  less_trans size st' st (some (joined, after)) w (q, l) = (q, omega (arith, w, l))

  scan_step :
      (size fuel : ℕ) (st : DecodeState) (t : Turn)
      → TurnLess size st t
      → ((next : ℕ) (st' : DecodeState)
          → next < size
          → InRange st'.addr_queue
          → ScanLess size st' (scan memacc fd_decode call_function stop fuel next st'))
      → ScanLess size st (elim t [
        | leave joined st' ↦ some (joined, st')
        | go_on next st' ↦ scan memacc fd_decode call_function stop fuel next st'
      ])
  scan_step size fuel st (leave joined st') l rest = l
  scan_step size fuel st (go_on next st') ((q, w), small) rest =
      less_trans size st' st (scan memacc fd_decode call_function stop fuel next st') w
        (rest next st' small q)

  pub scan_less :
      (size fuel cur : ℕ) (st : DecodeState)
      → size ≡ 2 ^ 64
      → cur < size
      → InRange st.addr_queue
      → ScanLess size st (scan memacc fd_decode call_function stop fuel cur st)
  unfolding scan
  scan_less size zero cur st e h q = tt
  scan_less size (suc fuel) cur st e h q =
      scan_step size fuel st (turn memacc fd_decode call_function stop cur st)
        (turn_less cur size st e h q) (λ next st' small q'. scan_less size fuel next st' e small q')
