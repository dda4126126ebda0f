-- ===== src/Docs/Scheduler/Order.antt =====
-- The labels stay in the order of their priorities, and each has its queue.
use mathlib.Core.List.{flatten}
use scala_neko.Base.{
  ℕ, suc, zero, ◌≤◌, ◌≡◌, refl, ap, Bool-cases, inl, inr, List, [], ◌∷◌, ◌++◌, arith, leb, length,
  set, insert_at, erase_idx, All,
}
use scala_neko.Docs.Scheduler.{Label, Job, place}

abbrev pub IsSorted : List Label → Type 0
IsSorted [] = Unit
IsSorted (l ∷ ls) = All (λ m. l.priority ≤ m.priority) ls × IsSorted ls

All-le_trans :
    (a b : ℕ) (ls : List Label)
    → a ≤ b
    → All (λ m. b ≤ m.priority) ls
    → All (λ m. a ≤ m.priority) ls
All-le_trans a b [] h k = tt
All-le_trans a b (l ∷ ls) h k = (omega arith, All-le_trans a b ls h k.1)

All-insert_at :
    (P : Label → Type 0) (ls : List Label) (i : ℕ) (l : Label)
    → P l
    → All P ls
    → All P (insert_at ls i l)
All-insert_at P ls zero l h k = (h, k)
All-insert_at P [] (suc i) l h k = (h, tt)
All-insert_at P (m ∷ ls) (suc i) l h k = (k.0, All-insert_at P ls i l h k.1)

All-erase_idx : (P : Label → Type 0) (ls : List Label) (i : ℕ) → All P ls → All P (erase_idx ls i)
All-erase_idx P [] i k = tt
All-erase_idx P (m ∷ ls) zero k = k.1
All-erase_idx P (m ∷ ls) (suc i) k = (k.0, All-erase_idx P ls i k.1)

pub erase_idx-IsSorted : (ls : List Label) (i : ℕ) → IsSorted ls → IsSorted (erase_idx ls i)
erase_idx-IsSorted [] i h = tt
erase_idx-IsSorted (l ∷ ls) zero h = h.1
erase_idx-IsSorted (l ∷ ls) (suc i) h = (All-erase_idx _ ls i h.0, erase_idx-IsSorted ls i h.1)

module _ {ℓ} {V : Type ℓ} where
  pub insert_at-place-IsSorted :
      (ls : List Label) (qs : List (List (Job V))) (l : Label)
      → length ls ≡ length qs
      → IsSorted ls
      → IsSorted (insert_at ls (place ls qs l.priority) l)
  unfolding place
  insert_at-place-IsSorted [] qs l e h = (tt, tt)
  insert_at-place-IsSorted (m ∷ ls) [] l e h = absurd (omega arith)
  insert_at-place-IsSorted (m ∷ ls) (q ∷ qs) l e h = elim (Bool-cases (leb m.priority l.priority)) [
    | inl below ↦ rw below (
      All-insert_at _ ls _ l (ground arith) h.0,
      insert_at-place-IsSorted ls qs l (omega arith) h.1,
    )
    | inr above ↦ rw above ((ground arith, All-le_trans _ _ ls (ground arith) h.0), h)
  ]

  pub flatten-insert_at :
      (qs : List (List (Job V))) (i : ℕ) → flatten (insert_at qs i []) ≡ flatten qs
  unfolding flatten
  flatten-insert_at qs zero = refl
  flatten-insert_at [] (suc i) = refl
  flatten-insert_at (q ∷ qs) (suc i) = ap (q ++◌) (flatten-insert_at qs i)

  pub length-erase_idx {κ} :
      {A : Type κ} (ls : List A) (qs : List (List (Job V))) (i : ℕ)
      → length ls ≡ length qs
      → length (erase_idx ls i) ≡ length (erase_idx qs i)
  length-erase_idx [] [] i e = refl
  length-erase_idx [] (q ∷ qs) i e = absurd (omega arith)
  length-erase_idx (l ∷ ls) [] i e = absurd (omega arith)
  length-erase_idx (l ∷ ls) (q ∷ qs) zero e = omega arith
  length-erase_idx (l ∷ ls) (q ∷ qs) (suc i) e = ap suc (length-erase_idx ls qs i (omega arith))

  pub flatten-erase_idx-eq-nil :
      (qs : List (List (Job V))) (i : ℕ) → flatten qs ≡ [] → flatten (erase_idx qs i) ≡ []
  unfolding flatten
  flatten-erase_idx-eq-nil [] i e = refl
  flatten-erase_idx-eq-nil ([] ∷ qs) zero e = e
  flatten-erase_idx-eq-nil ([] ∷ qs) (suc i) e = flatten-erase_idx-eq-nil qs i e
  flatten-erase_idx-eq-nil ((j ∷ q) ∷ qs) i e = cc

  pub flatten-set-eq-nil :
      (qs : List (List (Job V))) (i : ℕ) → flatten qs ≡ [] → flatten (set qs i []) ≡ []
  unfolding flatten
  flatten-set-eq-nil [] i e = refl
  flatten-set-eq-nil ([] ∷ qs) zero e = e
  flatten-set-eq-nil ([] ∷ qs) (suc i) e = flatten-set-eq-nil qs i e
  flatten-set-eq-nil ((j ∷ q) ∷ qs) i e = cc
