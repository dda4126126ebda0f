-- ===== src/Protocol/VectorClock.antt =====
-- VectorClock.scala: a vector with an entry for each process, as a list. Entries are numbers
-- without the bound 2 ^ 63 of `Long`.
pub mod Order
mod Samples
use scala_neko.Base.{
  ℕ, zero, suc, ◌+◌, List, [], ◌∷◌, Option, none, some, max, ◌==◌, if◌then◌else◌, length, replicate,
}
use scala_neko.Protocol.Message.{Message, Request, signal, message}

pub record VcTimeStamped {ℓ} (A : Type ℓ) : Type ℓ where
  pub m : Message A
  pub ts : List ℕ

pub data Sent {ℓ} (A : Type ℓ) : Type ℓ where
  signal_on : ℕ → Sent A
  stamped : VcTimeStamped A → Sent A

-- `vec.indices.map { … }` adds one at the index `me`, if there is one.
unfoldable pub increment : ℕ → List ℕ → List ℕ
increment me [] = []
increment zero (x ∷ vec) = (x + 1) ∷ vec
increment (suc me) (x ∷ vec) = x ∷ increment me vec

unfoldable pub zip_with : (ℕ → ℕ → ℕ) → List ℕ → List ℕ → List ℕ
zip_with f (x ∷ v1) (y ∷ v2) = f x y ∷ zip_with f v1 v2
zip_with f _ _ = []

-- `none` is a failed assertion.
unfoldable pub combine : List ℕ → List ℕ → (ℕ → ℕ → ℕ) → Option (List ℕ)
combine v1 v2 f = if length v1 == length v2 then some (zip_with f v1 v2) else none

-- The vector after `internal`, and at the start of `onSend`.
unfoldable pub next_time : ℕ → List ℕ → List ℕ
next_time me vc = increment me vc

-- The vector at the start of `onReceive`.
unfoldable pub receive_time : ℕ → List ℕ → List ℕ → Option (List ℕ)
receive_time me ts vc = combine (increment me vc) ts (λ x y. max x y)

module _ {ℓ} {A : Type ℓ} (me : ℕ) where
  pub on_send : Request A → List ℕ → List ℕ × Sent A
  on_send (signal ie) vc = (next_time me vc, signal_on ie)
  on_send (message m) vc = let vc' = next_time me vc in (vc', stamped (record { m = m; ts = vc' }))

  pub on_receive : VcTimeStamped A → List ℕ → Option (List ℕ × Message A)
  on_receive t vc = elim (receive_time me t.ts vc) [ none ↦ none | some vc' ↦ some (vc', t.m) ]
