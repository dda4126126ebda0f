-- ===== src/Active/Samples.antt =====
-- A process with numbers as events, and the theorems on it.
use scala_neko.Base.{ℕ, ◌≤◌, ◌≡◌, refl, Bool, none, [], ◌∷◌, ◌==◌, ==_iff, ltb, arith}
use scala_neko.Active.{
  ActiveProtocol, handled, deliver, find, filter_not, receive_loop, receive_or_stash,
}
use scala_neko.Active.Stash.{
  pending, event, left_over, without_first, copies, receive_or_stash-find,
}

program : Unit {0}
unfolding deliver find filter_not receive_loop receive_or_stash without_first copies
program = tt

abbrev large : ℕ → Bool
large e = ltb 5 e

abbrev process : ActiveProtocol ℕ
process = record { blocking_queue = 2 ∷ 9 ∷ 3 ∷ []; stash = 1 ∷ [] }

-- The event 2 is stashed on the way to 9.
receive_or_stash-process :
    receive_or_stash ◌==◌ large process
    ≡ handled 9 (record { blocking_queue = 3 ∷ []; stash = 1 ∷ 2 ∷ [] })
unfolding program
receive_or_stash-process = refl

deliver-process :
    deliver large 4 process ≡ (record process { blocking_queue = 2 ∷ 9 ∷ 3 ∷ 4 ∷ [] }, none)
unfolding program
deliver-process = refl

once : (m : ℕ) → copies ◌==◌ m process.stash ≤ 1
unfolding program
once m = ground arith

receive_or_stash-find_example :
    (event (receive_or_stash ◌==◌ large process) ≡ find large (pending process))
    × (left_over (receive_or_stash ◌==◌ large process) ≡ without_first large (pending process))
receive_or_stash-find_example = receive_or_stash-find ◌==◌ ==_iff large process once

-- Two equal events in the stash.
abbrev twice : ActiveProtocol ℕ
twice = record { blocking_queue = []; stash = 7 ∷ 1 ∷ 7 ∷ [] }

receive_or_stash-twice :
    receive_or_stash ◌==◌ large twice ≡ handled 7 (record { blocking_queue = []; stash = 1 ∷ [] })
unfolding program
receive_or_stash-twice = refl
