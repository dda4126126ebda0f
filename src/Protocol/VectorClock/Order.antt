-- ===== src/Protocol/VectorClock/Order.antt =====
-- The order of vectors, and the clock condition for it.
use native.Mathlib.Nat.{le_refl}
use scala_neko.Base.{
  ◌++◌, ℕ, zero, suc, ap, ◌+◌, ◌≡◌, ◌≢◌, ◌<◌, ◌≤◌, refl, List, [], ◌∷◌, some, max, ◌==◌, arith,
  length, replicate, length-replicate, ◌∙◌, Bool-cases, inl, inr,
}
use scala_neko.Protocol.LogicalClock.{LogicalClock, Event, World, start, Reach}
use scala_neko.Protocol.LogicalClock.Invariant.{HappensBefore}
use scala_neko.Protocol.LogicalClock.Causality.{clock_condition, receives}
use scala_neko.Protocol.VectorClock.{increment, zip_with, combine, next_time, receive_time}

-- The entry of process `i`; 0 if there is none.
abbrev pub entry : List ℕ → ℕ → ℕ
entry [] i = 0
entry (x ∷ vec) zero = x
entry (x ∷ vec) (suc i) = entry vec i

-- No entry is greater, and one is smaller.
abbrev pub IsBefore : List ℕ → List ℕ → Type 0
IsBefore v w = ((i : ℕ) → entry v i ≤ entry w i) × ((i : ℕ) × (entry v i < entry w i))

length-increment : (me : ℕ) (vec : List ℕ) → length (increment me vec) ≡ length vec
unfolding increment
length-increment me [] = refl
length-increment zero (x ∷ vec) = refl
length-increment (suc me) (x ∷ vec) = ap suc (length-increment me vec)

entry-increment_self :
    (me : ℕ) (vec : List ℕ) → me < length vec → entry (increment me vec) me ≡ entry vec me + 1
unfolding increment
entry-increment_self me [] h = absurd (omega arith)
entry-increment_self zero (x ∷ vec) h = refl
entry-increment_self (suc me) (x ∷ vec) h = entry-increment_self me vec (omega arith)

entry-increment_ne : (me i : ℕ) (vec : List ℕ) → i ≢ me → entry (increment me vec) i ≡ entry vec i
unfolding increment
entry-increment_ne me i [] h = refl
entry-increment_ne zero zero (x ∷ vec) h = absurd (h refl)
entry-increment_ne zero (suc i) (x ∷ vec) h = refl
entry-increment_ne (suc me) zero (x ∷ vec) h = refl
entry-increment_ne (suc me) (suc i) (x ∷ vec) h = entry-increment_ne me i vec (λ e. h (ap suc e))

entry-increment_le : (me i : ℕ) (vec : List ℕ) → entry vec i ≤ entry (increment me vec) i
unfolding increment
entry-increment_le me i [] = omega arith
entry-increment_le zero zero (x ∷ vec) = omega arith
entry-increment_le zero (suc i) (x ∷ vec) = omega arith
entry-increment_le (suc me) zero (x ∷ vec) = omega arith
entry-increment_le (suc me) (suc i) (x ∷ vec) = entry-increment_le me i vec

length-zip_with :
    (v w : List ℕ) → length v ≡ length w → length (zip_with (λ x y. max x y) v w) ≡ length v
unfolding zip_with
length-zip_with [] w h = refl
length-zip_with (x ∷ v) [] h = absurd (omega arith)
length-zip_with (x ∷ v) (y ∷ w) h = ap suc (length-zip_with v w (omega arith))

entry-zip_with :
    (v w : List ℕ) (i : ℕ)
    → length v ≡ length w
    → entry (zip_with (λ x y. max x y) v w) i ≡ max (entry v i) (entry w i)
unfolding zip_with
entry-zip_with [] [] i h = omega arith
entry-zip_with [] (y ∷ w) i h = absurd (omega arith)
entry-zip_with (x ∷ v) [] i h = absurd (omega arith)
entry-zip_with (x ∷ v) (y ∷ w) zero h = refl
entry-zip_with (x ∷ v) (y ∷ w) (suc i) h = entry-zip_with v w i (omega arith)

pub IsBefore-trans : (a b c : List ℕ) → IsBefore a b → IsBefore b c → IsBefore a c
IsBefore-trans a b c (le, (i, lt)) (le', (j, lt')) =
    (λ k. omega (arith, le k, le' k), (i, omega (arith, le' i)))

module _ (n : ℕ) where
  pub tick_lem :
      (p : ℕ) (c : List ℕ)
      → p < n
      → length c ≡ n
      → (length (next_time p c) ≡ n) × IsBefore c (next_time p c)
  unfolding next_time
  tick_lem p c is size = (
    length-increment p c ∙ size,
    (λ i. entry-increment_le p i c, (p, omega (arith, entry-increment_self p c (omega arith)))),
  )

  receive_time-eq :
      (p : ℕ) (c t : List ℕ)
      → length c ≡ n
      → length t ≡ n
      → receive_time p t c ≡ some (zip_with (λ x y. max x y) (increment p c) t)
  unfolding receive_time combine
  receive_time-eq p c t a b = ground (arith, length-increment p c)

  -- An entry of the merged vector.
  entry-receive_time :
      (p : ℕ) (c t : List ℕ) (i : ℕ)
      → length c ≡ n
      → length t ≡ n
      → entry (zip_with (λ x y. max x y) (increment p c) t) i
        ≡ max (entry (increment p c) i) (entry t i)
  entry-receive_time p c t i a b =
      entry-zip_with (increment p c) t i (omega (arith, length-increment p c))

  pub merge_lem :
      (p : ℕ) (c t : List ℕ)
      → p < n
      → length c ≡ n
      → length t ≡ n
      → entry t p ≤ entry c p
      → (d : List ℕ) × (receive_time p t c ≡ some d) × (length d ≡ n) × IsBefore c d × IsBefore t d
  merge_lem p c t is a b known =
      let grows = entry-increment_self p c (omega arith) in
      let merged = λ (i : ℕ). entry-receive_time p c t i a b in
      (
        zip_with (λ x y. max x y) (increment p c) t,
        receive_time-eq p c t a b,
        length-zip_with (increment p c) t (omega (arith, length-increment p c))
            ∙ length-increment p c
            ∙ a,
        (
          λ i. omega (arith, merged i, entry-increment_le p i c),
          (p, omega (arith, merged p, grows)),
        ),
        (λ i. omega (arith, merged i), (p, omega (arith, merged p, grows))),
      )

  pub merge-ne :
      (p q : ℕ) (c d t e : List ℕ)
      → p ≢ q
      → receive_time q t d ≡ some e
      → entry d p ≤ entry c p
      → entry t p ≤ entry c p
      → entry e p ≤ entry c p
  unfolding receive_time combine
  merge-ne p q c d t e ne merged a b = elim (Bool-cases (length (increment q d) == length t)) [
    | inl same ↦
        let is : zip_with (λ x y. max x y) (increment q d) t ≡ e = ground arith in
        rw (← is, entry-zip_with (increment q d) t p (ground arith))
          (omega (arith, entry-increment_ne q p d ne))
    | inr other ↦ absurd (ground arith)
  ]

  abbrev pub zeros : List ℕ
  zeros = replicate n 0

  pub length-zeros : length zeros ≡ n
  length-zeros = length-replicate n 0

pub knows_before :
    (p : ℕ) (c d t : List ℕ) → IsBefore c d → entry t p ≤ entry c p → entry t p ≤ entry d p
knows_before p c d t l h = omega (arith, l.0 p)

pub knows_tick :
    (p q : ℕ) (c d : List ℕ) → p ≢ q → entry d p ≤ entry c p → entry (next_time q d) p ≤ entry c p
unfolding next_time
knows_tick p q c d ne h = omega (arith, entry-increment_ne q p d ne)

-- The vector clocks of `n` processes.
abbrev pub vector : ℕ → LogicalClock
vector n = record {
  Time = List ℕ;
  initial = zeros n;
  tick = next_time;
  merge = λ p c t. receive_time p t c;
  IsProcess = λ p. p < n;
  IsTime = λ c. length c ≡ n;
  IsBefore = IsBefore;
  Knows = λ p c t. entry t p ≤ entry c p;
  before_trans = IsBefore-trans;
  initial-IsTime = length-zeros n;
  tick_lem = tick_lem n;
  merge_lem = merge_lem n;
  Knows_self = λ p c. le_refl (entry c p);
  Knows-before = λ p c d t _ _ l h. knows_before p c d t l h;
  Knows-tick = knows_tick;
  Knows-merge = merge-ne n;
}

-- In every run of `n` processes with vector clocks, over a network that may reorder, repeat or
-- lose messages, an event that may have influenced another has a vector that is nowhere greater
-- and somewhere smaller.
pub HappensBefore-IsBefore :
    (n : ℕ) {w : World (vector n)} {e f : Event (vector n)}
    → Reach (vector n) (start (vector n)) w
    → HappensBefore (vector n) w.log e f
    → IsBefore e.stamp f.stamp
HappensBefore-IsBefore n r h = clock_condition (vector n) r h

-- In every such run the assertion on the sizes of the vectors holds at each receipt.
pub receive_time_succeeds :
    (n : ℕ) {w : World (vector n)} (q k : ℕ) (t : List ℕ) (xs ys : List (ℕ × List ℕ))
    → Reach (vector n) (start (vector n)) w
    → q < n
    → w.network ≡ xs ++ (k, t) ∷ ys
    → (c : List ℕ) × (receive_time q t (w.clocks q) ≡ some c)
receive_time_succeeds n q k t xs ys r is at = receives (vector n) q k t xs ys r is at
