-- ===== src/Protocol/Fifo/Channel.antt =====
-- The channel from one process to another: what holds of the sender's counter, of the packets on
-- their way, and of the receiver's buffer and counter, while the protocol runs.
use scala_neko.Base.{
  ℕ, ◌+◌, ◌≡◌, ◌≤◌, ◌<◌, ◌≢◌, inl, inr, refl, sym, true, false, List, [], ◌∷◌, ◌++◌, some, ◌==◌,
  ltb, leb, if◌then◌else◌, ◌&&◌, arith, length, get_elem?, take, All, Bool-cases, append-nil,
  append_assoc, ◌∙◌, take-suc,
}
use scala_neko.Protocol.Message.{Message}
use scala_neko.Protocol.Fifo.{FifoInfo, enqueue, deliver_pending, comes_first}

module _ {ℓ} {A : Type ℓ} where
  abbrev pub has_number : ℕ → List (FifoInfo A) → ℕ
  has_number i [] = 0
  has_number i (x ∷ xs) = (if x.seq_num == i then 1 else 0) + has_number i xs

  abbrev pub IsSorted : List (FifoInfo A) → Type 0
  IsSorted [] = Unit
  IsSorted (x ∷ xs) = All (λ y. x.seq_num ≤ y.seq_num) xs × IsSorted xs

  -- The elements are numbered by their places in `sent`.
  abbrev pub Buffers : List (Message A) → List (FifoInfo A) → Type ℓ
  Buffers sent = All (λ x. get_elem? sent x.seq_num ≡ some x.msg)

  -- The loop has stopped: what is waited for is not at hand.
  abbrev pub IsBlocked : ℕ → List (FifoInfo A) → Type 0
  IsBlocked next [] = Unit
  IsBlocked next (x ∷ xs) = x.seq_num ≢ next

  pub has_number-enqueue :
      (i : ℕ) (x : FifoInfo A) (xs : List (FifoInfo A))
      → has_number i (enqueue x xs) ≡ has_number i (x ∷ xs)
  unfolding enqueue
  has_number-enqueue i x [] = refl
  has_number-enqueue i x (y ∷ ys) = ground (arith, has_number-enqueue i x ys)

  pub All-enqueue {κ} :
      (P : FifoInfo A → Type κ) (x : FifoInfo A) (xs : List (FifoInfo A))
      → P x
      → All P xs
      → All P (enqueue x xs)
  unfolding enqueue
  All-enqueue P x [] h k = (h, tt)
  All-enqueue P x (y ∷ ys) h k = elim (Bool-cases (comes_first x y)) [
    | inl first ↦ rw first (h, k)
    | inr later ↦ rw later (k.0, All-enqueue P x ys h k.1)
  ]

  All-le_trans :
      (a b : ℕ) (xs : List (FifoInfo A))
      → a ≤ b
      → All (λ y. b ≤ y.seq_num) xs
      → All (λ y. a ≤ y.seq_num) xs
  All-le_trans a b [] h k = tt
  All-le_trans a b (x ∷ xs) h k = (omega arith, All-le_trans a b xs h k.1)

  comes_first-le : (x y : FifoInfo A) → comes_first x y ≡ true → x.seq_num ≤ y.seq_num
  unfolding comes_first
  comes_first-le x y h = ground arith

  comes_first-ge : (x y : FifoInfo A) → comes_first x y ≡ false → y.seq_num ≤ x.seq_num
  unfolding comes_first
  comes_first-ge x y h = ground arith

  pub enqueue-IsSorted :
      (x : FifoInfo A) (xs : List (FifoInfo A)) → IsSorted xs → IsSorted (enqueue x xs)
  unfolding enqueue
  enqueue-IsSorted x [] h = (tt, tt)
  enqueue-IsSorted x (y ∷ ys) h = elim (Bool-cases (comes_first x y)) [
    | inl first ↦
        rw first ((comes_first-le x y first, All-le_trans _ _ ys (comes_first-le x y first) h.0), h)
    | inr later ↦
        rw later (All-enqueue _ x ys (comes_first-ge x y later) h.0, enqueue-IsSorted x ys h.1)
  ]

  has_number_below :
      (i n : ℕ) (xs : List (FifoInfo A)) → All (λ y. n ≤ y.seq_num) xs → i < n → has_number i xs ≡ 0
  has_number_below i n [] h k = refl
  has_number_below i n (x ∷ xs) h k = ground (arith, h.0, has_number_below i n xs h.1)

  -- Where each number from `next` on occurs at most once and none below, a blocked and sorted
  -- buffer lacks the number that is waited for.
  pub IsBlocked-has_number :
      (next : ℕ) (xs : List (FifoInfo A))
      → IsSorted xs
      → IsBlocked next xs
      → ((i : ℕ) → i < next → has_number i xs ≡ 0)
      → has_number next xs ≡ 0
  IsBlocked-has_number next [] s b h = refl
  IsBlocked-has_number next (x ∷ xs) s b h =
      ground (arith, h x.seq_num, has_number_below next x.seq_num xs s.0)

  deliver_pending-ge :
      (buffer : List (FifoInfo A)) (next : ℕ) → next ≤ (deliver_pending buffer next).2
  unfolding deliver_pending
  deliver_pending-ge [] next = omega arith
  deliver_pending-ge (x ∷ xs) next = ground (arith, deliver_pending-ge xs (next + 1))

  -- What the loop delivers continues the prefix of `sent`, and takes each number that it passes.
  pub deliver_pending_lem :
      (buffer : List (FifoInfo A)) (next : ℕ) (sent : List (Message A))
      → Buffers sent buffer
      → IsSorted buffer
      → next ≤ length sent
      → (take (deliver_pending buffer next).2 sent
          ≡ take next sent ++ (deliver_pending buffer next).0)
        × (next ≤ (deliver_pending buffer next).2)
        × ((deliver_pending buffer next).2 ≤ length sent)
        × Buffers sent (deliver_pending buffer next).1
        × IsSorted (deliver_pending buffer next).1
        × IsBlocked (deliver_pending buffer next).2 (deliver_pending buffer next).1
  unfolding deliver_pending
  deliver_pending_lem [] next sent b s h = (sym (append-nil _), omega arith, h, tt, tt, tt)
  deliver_pending_lem (x ∷ xs) next sent b s h = elim (Bool-cases (x.seq_num == next)) [
    | inl waited_for ↦
        let here : x.seq_num ≡ next = ground arith in
        let (grows, fits) = take-suc next sent x.msg (rw here at b.0) in
        let (more, up, within, kept, sorted, stopped) =
          deliver_pending_lem xs (next + 1) sent b.1 s.1 fits in
        rw waited_for (
          more ∙ (rw grows (append_assoc (take next sent) (x.msg ∷ []) _)),
          omega arith,
          within,
          kept,
          sorted,
          stopped,
        )
    | inr other ↦ rw other (sym (append-nil _), omega arith, h, b, s, ground arith)
  ]

  -- Each number that the loop passes leaves the buffer once.
  pub has_number-deliver_pending :
      (buffer : List (FifoInfo A)) (next i : ℕ)
      → has_number i buffer
        ≡ has_number i (deliver_pending buffer next).1
          + (if leb next i && ltb i (deliver_pending buffer next).2 then 1 else 0)
  unfolding deliver_pending
  has_number-deliver_pending [] next i = ground arith
  has_number-deliver_pending (x ∷ xs) next i =
      ground (arith, has_number-deliver_pending xs (next + 1) i, deliver_pending-ge xs (next + 1))
