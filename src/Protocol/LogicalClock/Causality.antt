-- ===== src/Protocol/LogicalClock/Causality.antt =====
-- The clock condition: what may have influenced an event has an earlier timestamp.
use scala_neko.Base.{
  ℕ, suc, ◌≡◌, ◌≢◌, ◌<◌, inl, refl, List, [], ◌∷◌, ◌++◌, some, arith, All, All-middle, subst,
}
use scala_neko.Protocol.LogicalClock.{
  LogicalClock, Kind, internal, sent, received, Event, World, start, happens, acts, sends, Step,
  act, send, receive, Reach, here, next,
}
use scala_neko.Protocol.LogicalClock.Invariant.{
  HappensBefore, Stamped-IsBefore, AtMost-IsBefore, Carries, IsSound, knows_new, happens-IsSound,
}

module _ (C : LogicalClock) where
  no_message :
      (kind : Kind) (c : C.Time) (es : List (Event C))
      → ((k : ℕ) → kind ≢ received k)
      → All (λ e. (k : ℕ) → e.kind ≡ sent k → kind ≡ received k → C.IsBefore e.stamp c) es
  no_message kind c [] h = tt
  no_message kind c (e ∷ es) h = (λ k s r. absurd (h k r), no_message kind c es h)

  ticks_others :
      (w : World C) (p : ℕ)
      → IsSound C w
      → (q : ℕ) → q ≢ p
      → C.Knows q (w.clocks q) (C.tick p (w.clocks p))
  ticks_others w p h q ne = C.Knows-tick q p (w.clocks q) (w.clocks p) ne (h.knows q p)

  acts-IsSound : (w : World C) (p : ℕ) → C.IsProcess p → IsSound C w → IsSound C (acts C w p)
  acts-IsSound w p is h =
      let (time, after) = C.tick_lem p (w.clocks p) is (h.times p) in
      happens-IsSound C w h p internal _ w.fresh time after (ticks_others w p h) (omega arith)
        (λ k e. absurd (cc)) (no_message internal _ w.log (λ k e. cc))

  not_sent_yet :
      (es : List (Event C)) (n : ℕ) (t : C.Time)
      → All (λ e. (k : ℕ) → e.kind ≡ sent k → k < n) es
      → Carries C es (n, t)
  not_sent_yet [] n t h = tt
  not_sent_yet (e ∷ es) n t h = (λ s. absurd (omega (arith, h.0 n s)), not_sent_yet es n t h.1)

  sends-IsSound : (w : World C) (p : ℕ) → C.IsProcess p → IsSound C w → IsSound C (sends C w p)
  sends-IsSound w p is h =
      let c = C.tick p (w.clocks p) in
      let (time, after) = C.tick_lem p (w.clocks p) is (h.times p) in
      let s =
        happens-IsSound C w h p (sent w.fresh) c (suc w.fresh) time after (ticks_others w p h)
          (omega arith) (λ k e. let same : w.fresh ≡ k = cc in (omega arith, omega arith))
          (no_message (sent w.fresh) c w.log (λ k e. cc)) in
      record {
        times = s.times;
        knows = s.knows;
        network_times = (time, s.network_times);
        network_known = (
          knows_new C w h p (sent w.fresh) c (suc w.fresh) time after (ticks_others w p h)
              (omega arith) (λ k e. let same : w.fresh ≡ k = cc in (omega arith, omega arith))
              (no_message (sent w.fresh) c w.log (λ k e. cc)),
          s.network_known,
        );
        network_old = (omega arith, s.network_old);
        network_carries =
            ((λ e. inl refl, not_sent_yet w.log w.fresh c h.log_old), s.network_carries);
        log_old = s.log_old;
        log_clocks = s.log_clocks;
        stamped = s.stamped;
      }

  from_message :
      (es : List (Event C)) (k : ℕ) (t c : C.Time)
      → C.IsBefore t c
      → Carries C es (k, t)
      → All (λ e. (i : ℕ) → e.kind ≡ sent i → received k ≡ received i → C.IsBefore e.stamp c) es
  from_message [] k t c b h = tt
  from_message (e ∷ es) k t c b h = (
    λ i s r. let same : k ≡ i = cc in AtMost-IsBefore C _ t c (h.0 (rw same s)) b,
    from_message es k t c b h.1,
  )

  receives-IsSound :
      (w : World C) (q k : ℕ) (t c : C.Time) (xs ys : List (ℕ × C.Time))
      → C.IsProcess q
      → w.network ≡ xs ++ (k, t) ∷ ys
      → C.merge q (w.clocks q) t ≡ some c
      → IsSound C w
      → IsSound C (happens C w q (received k) c)
  receives-IsSound w q k t c xs ys is at e h =
      let time =
        (All-middle _ xs (k, t) ys (subst (All (λ m. C.IsTime m.1)) at h.network_times)).0 in
      let known =
        (All-middle _ xs (k, t) ys
          (subst (All (λ m. (p : ℕ) → C.Knows p (w.clocks p) m.1)) at h.network_known)).0 in
      let carries =
        (All-middle _ xs (k, t) ys (subst (All (Carries C w.log)) at h.network_carries)).0 in
      let (d, merged, is_time, after, later) =
        C.merge_lem q (w.clocks q) t is (h.times q) time (known q) in
      let same : d ≡ c = cc in
      happens-IsSound C w h q (received k) c w.fresh (subst C.IsTime same is_time)
        (subst (C.IsBefore (w.clocks q)) same after)
        (λ p ne. C.Knows-merge p q (w.clocks p) (w.clocks q) t c ne e (h.knows p q) (known p))
        (omega arith) (λ i s. absurd (cc))
        (from_message w.log k t c (subst (C.IsBefore t) same later) carries)

  Step-IsSound : {w v : World C} → Step C w v → IsSound C w → IsSound C v
  Step-IsSound {w} (act p is e) h = rw e (acts-IsSound w p is h)
  Step-IsSound {w} (send p is e) h = rw e (sends-IsSound w p is h)
  Step-IsSound {w} (receive q k t c xs ys is at m e) h =
      rw e (receives-IsSound w q k t c xs ys is at m h)

  Reach-IsSound : {w v : World C} → Reach C w v → IsSound C w → IsSound C v
  Reach-IsSound here h = h
  Reach-IsSound (next r st) h = Step-IsSound st (Reach-IsSound r h)

  start-IsSound : IsSound C (start C)
  start-IsSound = record {
    times = λ p. C.initial-IsTime;
    knows = λ p q. C.Knows_self p C.initial;
    network_times = tt;
    network_known = tt;
    network_old = tt;
    network_carries = tt;
    log_old = tt;
    log_clocks = tt;
    stamped = tt;
  }

  -- In every run, an event that may have influenced another, at one process or through messages
  -- that the network may reorder, repeat or lose, has an earlier timestamp.
  pub clock_condition :
      {w : World C} {e f : Event C}
      → Reach C (start C) w
      → HappensBefore C w.log e f
      → C.IsBefore e.stamp f.stamp
  clock_condition {w} r h = Stamped-IsBefore C w.log (Reach-IsSound r start-IsSound).stamped h

  -- In every run, a message that is on the network can be received: no assertion fails.
  pub receives :
      {w : World C} (q k : ℕ) (t : C.Time) (xs ys : List (ℕ × C.Time))
      → Reach C (start C) w
      → C.IsProcess q
      → w.network ≡ xs ++ (k, t) ∷ ys
      → (c : C.Time) × (C.merge q (w.clocks q) t ≡ some c)
  receives {w} q k t xs ys r is at =
      let h = Reach-IsSound r start-IsSound in
      let time =
        (All-middle _ xs (k, t) ys (subst (All (λ m. C.IsTime m.1)) at h.network_times)).0 in
      let known =
        (All-middle _ xs (k, t) ys
          (subst (All (λ m. (p : ℕ) → C.Knows p (w.clocks p) m.1)) at h.network_known)).0 in
      let m = C.merge_lem q (w.clocks q) t is (h.times q) time (known q) in (m.0, m.1)
