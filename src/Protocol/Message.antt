-- ===== src/Protocol/Message.antt =====
-- Messages (Event.scala). A process identifier is its number; the content is what a subclass adds.
use scala_neko.Base.{ℕ, List}

pub record Message {ℓ} (A : Type ℓ) : Type ℓ where
  pub from : ℕ
  pub destinations : List ℕ
  pub content : A

-- What the layer above hands to `onSend`. Signals are told apart by numbers.
pub data Request {ℓ} (A : Type ℓ) : Type ℓ where
  signal : ℕ → Request A
  message : Message A → Request A
