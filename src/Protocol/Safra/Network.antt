-- ===== src/Protocol/Safra/Network.antt =====
-- A system of processes that run the protocol over a network that neither loses nor copies packets,
-- and hands them over in any order.
use scala_neko.Base.{ℕ, zero, suc, ◌<◌, ◌≡◌, List, [], ◌∷◌, ◌++◌, update, All}
use scala_neko.Protocol.Message.{Message}
use scala_neko.Protocol.Safra.{
  TokenHolder, Safra, Request, message, Packet, announce, payload, token_holder, Output,
  send_signal, send_payload, send_holder, send_announce, deliver_terminate, deliver, Result, threw,
  did, new, on_send, on_receive,
}

-- Beside the processes: the messages on their way, each with its destination, the tokens and the
-- announcements on their way, and the processes whose upper layer was told of the termination.
pub record World {ℓ} (A : Type ℓ) : Type ℓ where
  pub procs : ℕ → Safra
  pub payloads : List (ℕ × Message A)
  pub holders : List TokenHolder
  pub announcements : List ℕ
  pub told : List ℕ

-- All processes of `n`.
unfoldable pub all : ℕ → List ℕ
all zero = []
all (suc n) = n ∷ all n

module _ {ℓ} {A : Type ℓ} where
  abbrev pub start : World A
  start = record { procs = new; payloads = []; holders = []; announcements = []; told = [] }

  -- A message to each of its destinations.
  unfoldable pub copies : Message A → List ℕ → List (ℕ × Message A)
  copies m [] = []
  copies m (d ∷ ds) = (d, m) ∷ copies m ds

  -- What becomes of one output of process `p`.
  abbrev pub put : ℕ → ℕ → Output A → World A → World A
  put n p (send_signal ie) w = w
  put n p (send_payload m) w = record w { payloads = copies m m.destinations ++ w.payloads }
  put n p (send_holder h) w = record w { holders = h ∷ w.holders }
  put n p send_announce w = record w { announcements = all n ++ w.announcements }
  put n p deliver_terminate w = record w { told = p ∷ w.told }
  put n p (deliver m) w = w

  unfoldable pub put_all : ℕ → ℕ → List (Output A) → World A → World A
  put_all n p [] w = w
  put_all n p (o ∷ out) w = put_all n p out (put n p o w)

  abbrev pub become : ℕ → ℕ → Safra → List (Output A) → World A → World A
  become n p s out w = put_all n p out (record w { procs = update w.procs p s })

  unfoldable pub settle : ℕ → ℕ → Result A → World A → World A
  settle n p threw w = w
  settle n p (did s out) w = become n p s out w

  -- The upper layer of `p` sends.
  abbrev pub submit : ℕ → ℕ → Request A → World A → World A
  submit n p req w = settle n p (on_send n p req (w.procs p)) w

  -- A packet reaches `p`.
  abbrev pub arrive : ℕ → ℕ → Packet A → World A → World A
  arrive n p k w = become n p (on_receive n p k (w.procs p)).0 (on_receive n p k (w.procs p)).1 w

  -- The destinations of what is sent.
  abbrev pub IsAddressed : ℕ → Request A → Type 0
  IsAddressed n (message m) = All (λ d. d < n) m.destinations
  IsAddressed n _ = Unit {0}

  pub data Step (n : ℕ) : World A → World A → Type ℓ where
    sends :
        (w : World A) (p : ℕ) (req : Request A)
        → p < n
        → IsAddressed n req
        → Step n w (submit n p req w)
    payload_arrives :
        (w : World A) (xs ys : List (ℕ × Message A)) (p : ℕ) (m : Message A)
        → w.payloads ≡ xs ++ (p, m) ∷ ys
        → Step n w (arrive n p (payload m) (record w { payloads = xs ++ ys }))
    holder_arrives :
        (w : World A) (xs ys : List TokenHolder) (h : TokenHolder)
        → w.holders ≡ xs ++ h ∷ ys
        → Step n w (arrive n h.to (token_holder h) (record w { holders = xs ++ ys }))
    announce_arrives :
        (w : World A) (xs ys : List ℕ) (p : ℕ)
        → w.announcements ≡ xs ++ p ∷ ys
        → Step n w (arrive n p announce (record w { announcements = xs ++ ys }))

  pub data Reach (n : ℕ) : World A → Type ℓ where
    here : Reach n start
    next : (w v : World A) → Reach n w → Step n w v → Reach n v
