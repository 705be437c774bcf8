-- ===== src/Decoder/Unmapped.antt =====
-- The addresses that the address map of Function::Decode in src/lldecoder.cc has no entry for.
use mathlib.Core.Path.{subst}
use rellume.Prelude.{
  ℕ, zero, suc, ◌<◌, ◌≤◌, ◌≡◌, ◌==◌, false, Option, none, some, refl, ap, ◌∙◌, sym, arith, inl, inr,
}
use rellume.Decoder.{Place, update}
use rellume.Decoder.Places.{update_cases}

abbrev count : Option Place → ℕ → ℕ
count none rest = suc rest
count (some p) rest = rest

-- The number of addresses below a bound that have no entry.
unfoldable pub unmapped : ℕ → (ℕ → Option Place) → ℕ
unmapped zero m = 0
unmapped (suc n) m = count (m n) (unmapped n m)

count-le : (o : Option Place) (k n : ℕ) → k ≤ n → count o k ≤ suc n
count-le none k n h = omega arith
count-le (some p) k n h = omega arith

pub unmapped-le : (n : ℕ) (m : ℕ → Option Place) → unmapped n m ≤ n
unfolding unmapped
unmapped-le zero m = omega arith
unmapped-le (suc n) m = count-le (m n) (unmapped n m) n (unmapped-le n m)

not_lt : {m n : ℕ} → m ≡ n → suc n ≤ m → ⊥
not_lt e h = omega arith

le_of_eq : {m n : ℕ} → m ≡ n → n ≤ m
le_of_eq e = omega arith

below_of_ne : {m n : ℕ} → m < suc n → (m == n) ≡ false → m < n
below_of_ne h e = ground arith

suc-count : (o : Option Place) (k : ℕ) → suc (count o k) ≡ count o (suc k)
suc-count none k = refl
suc-count (some p) k = refl

unmapped-above :
    (n cur : ℕ) (p : Place) (m : ℕ → Option Place)
    → n ≤ cur
    → unmapped n (update m cur p) ≡ unmapped n m
unfolding unmapped
unmapped-above zero cur p m h = refl
unmapped-above (suc n) cur p m h = elim (update_cases m cur n p) [
  | inl (same, _) ↦ absurd (not_lt same h)
  | inr (_, miss) ↦ λ i. count (miss i) (unmapped-above n cur p m (omega arith) i)
]

-- A new entry leaves one address less without one.
pub unmapped-update :
    (n cur : ℕ) (p : Place) (m : ℕ → Option Place)
    → cur < n
    → m cur ≡ none
    → suc (unmapped n (update m cur p)) ≡ unmapped n m
unfolding unmapped
unmapped-update zero cur p m h free = elim h [ ]
unmapped-update (suc n) cur p m h free = elim (update_cases m cur n p) [
  | inl (same, hit) ↦
      ap suc (
        ap (λ (o : Option Place). count o (unmapped n (update m cur p))) hit
        ∙ unmapped-above n cur p m (le_of_eq same))
      ∙ sym (ap (λ (o : Option Place). count o (unmapped n m)) (ap m (sym same) ∙ free))
  | inr (other, miss) ↦
      ap suc (ap (λ (o : Option Place). count o (unmapped n (update m cur p))) miss)
      ∙ suc-count (m n) _
      ∙ ap (count (m n)) (unmapped-update n cur p m (below_of_ne h other) free)
]

some_count-le : (o : Option Place) (k n : ℕ) → k ≤ n → k ≤ count o n
some_count-le none k n h = omega arith
some_count-le (some p) k n h = h

count_mono : (o : Option Place) (k n : ℕ) → k ≤ n → count o k ≤ count o n
count_mono none k n h = omega arith
count_mono (some p) k n h = h

-- An entry more never leaves more addresses without one.
pub unmapped-update_le :
    (n a : ℕ) (p : Place) (m : ℕ → Option Place) → unmapped n (update m a p) ≤ unmapped n m
unfolding unmapped
unmapped-update_le zero a p m = omega arith
unmapped-update_le (suc n) a p m =
    let rest = unmapped-update_le n a p m in
    elim (update_cases m a n p) [
      | inl (same, hit) ↦
          subst
            (λ (o : Option Place). count o (unmapped n (update m a p)) ≤ count (m n) (unmapped n m))
            (sym hit) (some_count-le (m n) _ _ rest)
      | inr (other, miss) ↦
          subst
            (λ (o : Option Place). count o (unmapped n (update m a p)) ≤ count (m n) (unmapped n m))
            (sym miss) (count_mono (m n) _ _ rest)
    ]
