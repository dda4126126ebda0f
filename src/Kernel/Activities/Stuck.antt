-- ===== src/Kernel/Activities/Stuck.antt =====
-- What the exception of one activity does to the others.
use scala_neko.Base.{ℕ, ◌≡◌, Bool, true, false, some, List, get_elem?}
use scala_neko.Kernel.Activities.{Place, in_wait, in_finish, stopped, Activity, Manager}

-- The activity `j` is there, with its thread at a place.
pub record IsAtPlace (activities : List Activity) (j : ℕ) (place : Place) : Type 0 where
  pub who : Activity
  pub there : get_elem? activities j ≡ some who
  pub stands : who.place ≡ place

-- The thread is blocked at the barrier, or has ended by an exception.
abbrev pub is_held : Place → Bool
is_held p = elim p [ in_wait ↦ true | in_finish ↦ true | stopped ↦ true | _ ↦ false ]

module _ {W : Type 0} (i : ℕ) where
  -- The thread `i` has ended by an exception.
  abbrev IsStopped : Manager W → Type 0
  IsStopped m = IsAtPlace m.activities i stopped
