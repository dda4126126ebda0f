-- ===== src/Topology.antt =====
-- The topologies of src/main/scala/neko/topology.
pub mod Sets
pub mod Combinator
pub mod Neighbors
pub mod Clique
pub mod Ring
mod Samples
use scala_neko.Base.{ℕ, Bool, Option, none, some, List, []}

-- Topology.scala. A set is a list of its elements, in any order. The graph `underlying` and what is
-- asked of it (isConnected and the number of edges of a combination) belong to a library.
pub record Topology : Type 0 where
  pub process_set : List ℕ
  pub neighbors_for : ℕ → Option (List ℕ)
  pub contains : ℕ → Bool

-- `getOrElse(Set.empty)`
abbrev pub or_empty : Option (List ℕ) → List ℕ
or_empty none = []
or_empty (some xs) = xs
