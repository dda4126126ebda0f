-- ===== src/Protocol/RoundBased/Counts.antt =====
-- Counts of messages by sender and of destinations, and their sums over all processes.
use scala_neko.Base.{
  ℕ, zero, suc, ◌+◌, ◌≤◌, ◌<◌, ◌≡◌, refl, sym, ap, ◌∙◌, Bool, false, List, [], ◌∷◌, ◌==◌, ==_iff,
  length, ◌⊎◌, All, Bool-cases, inl, inr, arith,
}
use scala_neko.Base.Counts.{one, occurs}
use scala_neko.Protocol.Message.{Message}
use scala_neko.Protocol.RoundBased.{is_in, meet, overlaps, batch_size}

unfoldable pub total : ℕ → (ℕ → ℕ) → ℕ
total zero f = 0
total (suc n) f = total n f + f n

total-ext : (n : ℕ) (f g : ℕ → ℕ) → ((i : ℕ) → i < n → f i ≡ g i) → total n f ≡ total n g
unfolding total
total-ext zero f g e = refl
total-ext (suc n) f g e =
    let rest = total-ext n f g (λ i h. e i (omega arith)) in rw (rest, e n (omega arith)) refl

total-add : (n : ℕ) (f g : ℕ → ℕ) → total n (λ i. f i + g i) ≡ total n f + total n g
unfolding total
total-add zero f g = refl
total-add (suc n) f g = rw (total-add n f g) omega arith

total-zero : (n : ℕ) → total n (λ i. 0) ≡ 0
unfolding total
total-zero zero = refl
total-zero (suc n) = rw (total-zero n) refl

total_above : (n x : ℕ) → n ≤ x → total n (λ i. one (x == i)) ≡ 0
unfolding total
total_above zero x h = refl
total_above (suc n) x h = let rest = total_above n x (omega arith) in ground (arith, rest)

total_single : (n x : ℕ) → x < n → total n (λ i. one (x == i)) ≡ 1
unfolding total
total_single zero x h = absurd (omega arith)
total_single (suc n) x h = elim (Bool-cases (x == n)) [
  | inl e ↦
      let same = (==_iff x n).0 e in
      let rest = total_above n x (omega arith) in ground (arith, rest, e)
  | inr e ↦ let rest = total_single n x (ground arith) in ground (arith, rest, e)
]

-- Numbers of at most one: their sum, and what it says of each.
pub total-le : (n : ℕ) (f : ℕ → ℕ) → ((i : ℕ) → i < n → f i ≤ 1) → total n f ≤ n
unfolding total
total-le zero f h = omega arith
total-le (suc n) f h =
    let rest = total-le n f (λ i k. h i (omega arith)) in
    let last = h n (omega arith) in omega arith

pub total_full :
    (n : ℕ) (f : ℕ → ℕ) (i : ℕ) → ((j : ℕ) → j < n → f j ≤ 1) → total n f ≡ n → i < n → f i ≡ 1
unfolding total
total_full zero f i h e k = absurd (omega arith)
total_full (suc n) f i h e k =
    let below = total-le n f (λ j l. h j (omega arith)) in
    let last = h n (omega arith) in
    elim (Bool-cases (i == n)) [
      | inl s ↦ let top : f n ≡ 1 = omega arith in ap f ((==_iff i n).0 s) ∙ top
      | inr s ↦ total_full n f i (λ j l. h j (omega arith)) (omega arith) (ground arith)
    ]

module _ {ℓ} {A : Type ℓ} where
  -- The messages of a list that satisfy a test, and the one for a sender.
  unfoldable pub tally : (Message A → Bool) → List (Message A) → ℕ
  tally test [] = 0
  tally test (m ∷ ms) = tally test ms + one (test m)

  abbrev pub is_from : ℕ → Message A → Bool
  is_from p m = m.from == p

  pub total-tally :
      (n : ℕ) (ms : List (Message A))
      → All (λ m. m.from < n) ms
      → total n (λ p. tally (is_from p) ms) ≡ length ms
  unfolding tally
  total-tally n [] h = total-zero n
  total-tally n (m ∷ ms) h =
      total-add n (λ p. tally (is_from p) ms) (λ p. one (is_from p m))
      ∙ rw (total-tally n ms h.1, total_single n m.from h.0) omega arith

total-occurs : (n : ℕ) (ds : List ℕ) → All (λ d. d < n) ds → total n (λ q. occurs q ds) ≡ length ds
unfolding occurs
total-occurs n [] h = total-zero n
total-occurs n (d ∷ ds) h =
    total-add n (λ q. occurs q ds) (λ q. one (d == q))
    ∙ rw (total-occurs n ds h.1, total_single n d h.0) omega arith

occurs-is_in : (q : ℕ) (ds : List ℕ) → is_in q ds ≡ false → occurs q ds ≡ 0
unfolding occurs is_in
occurs-is_in q [] h = refl
occurs-is_in q (d ∷ ds) h =
    let rest = occurs-is_in q ds (ground (arith, h)) in ground (arith, rest, h)

-- Two sets that do not meet have no element in common.
occurs-meet : (q : ℕ) (xs ds : List ℕ) → meet xs ds ≡ false → (occurs q xs ≡ 0) ⊎ (occurs q ds ≡ 0)
unfolding occurs meet
occurs-meet q [] ds h = inl refl
occurs-meet q (x ∷ xs) ds h = elim (Bool-cases (x == q)) [
  | inl e ↦
      let absent : is_in x ds ≡ false = ground (arith, h) in
      inr (occurs-is_in q ds (ap (λ y. is_in y ds) (sym ((==_iff x q).0 e)) ∙ absent))
  | inr e ↦ elim (occurs-meet q xs ds (ground (arith, h))) [
    | inl k ↦ inl (rw (k, e) refl)
    | inr k ↦ inr k
  ]
]

module _ {ℓ} {A : Type ℓ} where
  -- How often a batch goes to a process.
  unfoldable pub cover : ℕ → List (Message A) → ℕ
  cover q [] = 0
  cover q (m ∷ batch) = cover q batch + occurs q m.destinations

  pub total-cover :
      (n : ℕ) (batch : List (Message A))
      → All (λ m. All (λ d. d < n) m.destinations) batch
      → total n (λ q. cover q batch) ≡ batch_size batch
  unfolding cover batch_size
  total-cover n [] h = total-zero n
  total-cover n (m ∷ batch) h =
      total-add n (λ q. cover q batch) (λ q. occurs q m.destinations)
      ∙ rw (total-cover n batch h.1, total-occurs n m.destinations h.0) refl

  -- A message that overlaps with none of a batch goes where the batch does not.
  cover-overlaps :
      (q : ℕ) (m : Message A) (batch : List (Message A))
      → overlaps m batch ≡ false
      → (occurs q m.destinations ≡ 0) ⊎ (cover q batch ≡ 0)
  unfolding cover overlaps
  cover-overlaps q m [] h = inr refl
  cover-overlaps q m (b ∷ batch) h =
      elim (occurs-meet q b.destinations m.destinations (ground (arith, h))) [
        | inl k ↦ elim (cover-overlaps q m batch (ground (arith, h))) [
          | inl l ↦ inl l
          | inr l ↦ inr (rw (k, l) refl)
        ]
        | inr k ↦ inl k
      ]

  pub cover-le :
      (q : ℕ) (m : Message A) (batch : List (Message A))
      → overlaps m batch ≡ false
      → occurs q m.destinations ≤ 1
      → cover q batch ≤ 1
      → cover q (m ∷ batch) ≤ 1
  unfolding cover
  cover-le q m batch h k l = elim (cover-overlaps q m batch h) [
    | inl e ↦ omega arith
    | inr e ↦ omega arith
  ]

-- With nothing from one process there are not enough.
pub total_short :
    (n : ℕ) (f : ℕ → ℕ) (i : ℕ) → ((j : ℕ) → j < n → f j ≤ 1) → i < n → f i ≡ 0 → total n f < n
total_short n f i h k e = elim (Bool-cases (total n f == n)) [
  | inl s ↦
      let full = total_full n f i h ((==_iff (total n f) n).0 s) k in
      absurd (omega (arith, full, e))
  | inr s ↦ let most = total-le n f h in ground (arith, most, s)
]

pub total_ones : (n : ℕ) (f : ℕ → ℕ) → ((i : ℕ) → i < n → f i ≡ 1) → total n f ≡ n
unfolding total
total_ones zero f h = refl
total_ones (suc n) f h =
    let rest = total_ones n f (λ i k. h i (omega arith)) in
    let last = h n (omega arith) in omega (arith, rest, last)
