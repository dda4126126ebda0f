-- ===== src/Kernel/Activities/Statuses.antt =====
-- The statuses of activities and the places of their threads.
use scala_neko.Base.{ℕ, ◌≡◌, refl, Bool, true, false, ◌&&◌}
use scala_neko.Kernel.Activities.{
  Status, running, waiting, finished, aborted, Place, executing, in_wait, in_finish, leaving_wait,
  leaving_finish, returned, stopped, Activity, is_finished, is_blocked, leave_wait, leave_finish,
  abort_unfinished, release,
}

-- The status that goes with a place, before and after `allFinished` is set.
pub data Fits : Bool → Place → Status → Type 0 where
  at_work : Fits false executing running
  at_wait : Fits false in_wait waiting
  at_finish : Fits false in_finish finished
  from_wait : Fits false leaving_wait waiting
  from_abort : Fits true leaving_wait aborted
  from_finish : (b : Bool) → Fits b leaving_finish finished
  at_end : Fits true returned finished
  at_stop : Fits true stopped aborted

-- The same while the action of the barrier runs.
pub data Stays : Bool → Place → Status → Type 0 where
  stays_waiting : Stays false in_wait waiting
  stays_aborted : Stays true in_wait aborted
  stays_finished : (b : Bool) → Stays b in_finish finished

abbrev pub activity : Status → Place → ℕ → Activity
activity s p n = record { status = s; place = p; arrivals = n }

pub arrive :
    (b : Bool) (p : Place) (s : Status) (n : ℕ)
    → is_blocked (activity s p n) ≡ true
    → Fits b p s
    → Stays b p s
arrive _ _ _ n k at_work = absurd (cc k)
arrive _ _ _ n k at_wait = stays_waiting
arrive _ _ _ n k at_finish = stays_finished false
arrive _ _ _ n k from_wait = absurd (cc k)
arrive _ _ _ n k from_abort = absurd (cc k)
arrive _ _ _ n k (from_finish b) = absurd (cc k)
arrive _ _ _ n k at_end = absurd (cc k)
arrive _ _ _ n k at_stop = absurd (cc k)

pub check :
    (b : Bool) (p : Place) (s : Status) (n : ℕ)
    → is_finished (activity s p n) ≡ true
    → Stays b p s
    → Stays true p s
check _ _ _ n k stays_waiting = absurd (cc k)
check _ _ _ n k stays_aborted = stays_aborted
check _ _ _ n k (stays_finished b) = stays_finished true

pub abort-Stays :
    (b : Bool) (p : Place) (s : Status) (n : ℕ)
    → Stays b p s
    → Stays true
        (abort_unfinished (activity s p n)).place
        (abort_unfinished (activity s p n)).status
abort-Stays _ _ _ n stays_waiting = stays_aborted
abort-Stays _ _ _ n stays_aborted = stays_aborted
abort-Stays _ _ _ n (stays_finished b) = stays_finished true

pub release-Fits :
    (b : Bool) (p : Place) (s : Status) (n : ℕ)
    → Stays b p s
    → Fits b (release (activity s p n)).place (release (activity s p n)).status
release-Fits _ _ _ n stays_waiting = from_wait
release-Fits _ _ _ n stays_aborted = from_abort
release-Fits _ _ _ n (stays_finished b) = from_finish b

pub works : (b : Bool) (p : Place) (s : Status) → p ≡ executing → Fits b p s → b ≡ false
works _ _ _ e at_work = refl
works _ _ _ e at_wait = refl
works _ _ _ e at_finish = refl
works _ _ _ e from_wait = refl
works _ _ _ e from_abort = absurd (cc e)
works _ _ _ e (from_finish b) = absurd (cc e)
works _ _ _ e at_end = absurd (cc e)
works _ _ _ e at_stop = absurd (cc e)

pub leave_wait-Fits :
    (b : Bool) (p : Place) (s : Status) (n : ℕ)
    → p ≡ leaving_wait
    → Fits b p s
    → Fits b (leave_wait (activity s p n)).place (leave_wait (activity s p n)).status
leave_wait-Fits _ _ _ n e at_work = absurd (cc e)
leave_wait-Fits _ _ _ n e at_wait = absurd (cc e)
leave_wait-Fits _ _ _ n e at_finish = absurd (cc e)
leave_wait-Fits _ _ _ n e from_wait = at_work
leave_wait-Fits _ _ _ n e from_abort = at_stop
leave_wait-Fits _ _ _ n e (from_finish b) = absurd (cc e)
leave_wait-Fits _ _ _ n e at_end = absurd (cc e)
leave_wait-Fits _ _ _ n e at_stop = absurd (cc e)

pub leave_finish-Fits :
    (b : Bool) (p : Place) (s : Status) (n : ℕ)
    → p ≡ leaving_finish
    → Fits b p s
    → Fits b (leave_finish b (activity s p n)).place (leave_finish b (activity s p n)).status
leave_finish-Fits _ _ _ n e at_work = absurd (cc e)
leave_finish-Fits _ _ _ n e at_wait = absurd (cc e)
leave_finish-Fits _ _ _ n e at_finish = absurd (cc e)
leave_finish-Fits _ _ _ n e from_wait = absurd (cc e)
leave_finish-Fits _ _ _ n e from_abort = absurd (cc e)
leave_finish-Fits _ _ _ n e (from_finish true) = at_end
leave_finish-Fits _ _ _ n e (from_finish false) = at_finish
leave_finish-Fits _ _ _ n e at_end = absurd (cc e)
leave_finish-Fits _ _ _ n e at_stop = absurd (cc e)

-- The activity has finished or been aborted, and its thread neither is in its own code nor waits at
-- the barrier.
abbrev pub is_over : Activity → Bool
is_over a =
    elim a.status [ finished ↦ true | aborted ↦ true | _ ↦ false ]
    && elim a.place [ executing ↦ false | in_wait ↦ false | in_finish ↦ false | _ ↦ true ]

pub over-Fits :
    (b : Bool) (p : Place) (s : Status) (n : ℕ)
    → b ≡ true
    → Fits b p s
    → is_over (activity s p n) ≡ true
over-Fits _ _ _ n e at_work = absurd (cc e)
over-Fits _ _ _ n e at_wait = absurd (cc e)
over-Fits _ _ _ n e at_finish = absurd (cc e)
over-Fits _ _ _ n e from_wait = absurd (cc e)
over-Fits _ _ _ n e from_abort = refl
over-Fits _ _ _ n e (from_finish b) = refl
over-Fits _ _ _ n e at_end = refl
over-Fits _ _ _ n e at_stop = refl

pub ended : (b : Bool) (p : Place) (s : Status) → p ≡ returned → Fits b p s → b ≡ true
ended _ _ _ e at_work = absurd (cc e)
ended _ _ _ e at_wait = absurd (cc e)
ended _ _ _ e at_finish = absurd (cc e)
ended _ _ _ e from_wait = absurd (cc e)
ended _ _ _ e from_abort = refl
ended _ _ _ e (from_finish b) = absurd (cc e)
ended _ _ _ e at_end = refl
ended _ _ _ e at_stop = refl
