-- ===== src/Base/Counts.antt =====
-- How often a number is in a list.
use Prim.Native.Nat.{ℕ, ◌+◌}
use mathlib.Core.Bool.{Bool}
use mathlib.Core.List.{List, [], ◌∷◌}
use scala_neko.Base.Tests.{◌==◌, if◌then◌else◌}

abbrev pub one : Bool → ℕ
one b = if b then 1 else 0

unfoldable pub occurs : ℕ → List ℕ → ℕ
occurs q [] = 0
occurs q (d ∷ ds) = occurs q ds + one (d == q)
