-- ===== src/Protocol/LogicalClock/Invariant.antt =====
-- What may have influenced an event, and what holds in a run: the log is in the order of the
-- timestamps, and the network carries the timestamps of what was sent. A new event keeps that up.
use scala_neko.Base.{
  ℕ, ◌≡◌, ◌≢◌, ◌≤◌, ◌<◌, ◌⊎◌, inl, inr, sym, ap, List, [], ◌∷◌, ◌++◌, update, ◌==◌, if◌then◌else◌,
  arith, All, All-imp, Bool-cases, subst,
}
use scala_neko.Protocol.LogicalClock.{LogicalClock, Kind, sent, received, Event, World, happens}

module _ (C : LogicalClock) where
  -- `e` stands below `f` in the log: at one process, or as the sending of what `f` receives.
  abbrev pub Causes : Event C → Event C → Type 0
  Causes e f = (e.process ≡ f.process) ⊎ ((k : ℕ) × (e.kind ≡ sent k) × (f.kind ≡ received k))

  pub data HappensBefore (log : List (Event C)) : Event C → Event C → Type 0 where
    direct :
        {e f : Event C} (xs ys zs : List (Event C))
        → log ≡ xs ++ (f ∷ (ys ++ (e ∷ zs)))
        → Causes e f
        → HappensBefore log e f
    through :
        {e f g : Event C} → HappensBefore log e g → HappensBefore log g f → HappensBefore log e f

  abbrev pub Dominates : Event C → Event C → Type 0
  Dominates f e = Causes e f → C.IsBefore e.stamp f.stamp

  abbrev pub Stamped : List (Event C) → Type 0
  Stamped [] = Unit
  Stamped (f ∷ es) = All (Dominates f) es × Stamped es

  All-at {κ} :
      (P : Event C → Type κ) (ys : List (Event C)) (e : Event C) (zs : List (Event C))
      → All P (ys ++ (e ∷ zs))
      → P e
  All-at P [] e zs h = h.0
  All-at P (y ∷ ys) e zs h = All-at P ys e zs h.1

  Stamped-at :
      (xs : List (Event C)) (f : Event C) (es : List (Event C))
      → Stamped (xs ++ (f ∷ es))
      → All (Dominates f) es
  Stamped-at [] f es h = h.0
  Stamped-at (x ∷ xs) f es h = Stamped-at xs f es h.1

  pub Stamped-IsBefore :
      (log : List (Event C)) {e f : Event C}
      → Stamped log
      → HappensBefore log e f
      → C.IsBefore e.stamp f.stamp
  Stamped-IsBefore log h (direct {f = f} xs ys zs at c) =
      All-at _ ys _ zs (Stamped-at xs f _ (subst Stamped at h)) c
  Stamped-IsBefore log h (through a b) =
      C.before_trans _ _ _ (Stamped-IsBefore log h a) (Stamped-IsBefore log h b)

  abbrev pub AtMost : C.Time → C.Time → Type 0
  AtMost a b = (a ≡ b) ⊎ C.IsBefore a b

  pub AtMost-IsBefore : (a b c : C.Time) → AtMost a b → C.IsBefore b c → C.IsBefore a c
  AtMost-IsBefore a b c (inl e) h = rw e h
  AtMost-IsBefore a b c (inr l) h = C.before_trans a b c l h

  -- The message `(k, t)` on the network carries the timestamp of its sending.
  abbrev pub Carries : List (Event C) → ℕ × C.Time → Type 0
  Carries log (k, t) = All (λ e. e.kind ≡ sent k → AtMost e.stamp t) log

  pub record IsSound (w : World C) : Type 0 where
    pub times : (p : ℕ) → C.IsTime (w.clocks p)
    pub knows : (p q : ℕ) → C.Knows p (w.clocks p) (w.clocks q)
    pub network_times : All (λ m. C.IsTime m.1) w.network
    pub network_known : All (λ m. (p : ℕ) → C.Knows p (w.clocks p) m.1) w.network
    pub network_old : All (λ m. m.0 < w.fresh) w.network
    pub network_carries : All (Carries w.log) w.network
    pub log_old : All (λ e. (k : ℕ) → e.kind ≡ sent k → k < w.fresh) w.log
    pub log_clocks : All (λ e. AtMost e.stamp (w.clocks e.process)) w.log
    pub stamped : Stamped w.log

  -- A new event at `p`, with a clock that is after the old one and that is not ahead of what any
  -- other process knows of itself.
  module _ (w : World C) (h : IsSound w) (p : ℕ) (kind : Kind) (c : C.Time) (n : ℕ)
      (is_time : C.IsTime c) (after : C.IsBefore (w.clocks p) c)
      (others : (q : ℕ) → q ≢ p → C.Knows q (w.clocks q) c) (grows : w.fresh ≤ n)
      (is_new : (k : ℕ) → kind ≡ sent k → (w.fresh ≤ k) × (k < n))
      (message : All
        (λ e. (k : ℕ) → e.kind ≡ sent k → kind ≡ received k → C.IsBefore e.stamp c)
        w.log) where
    knows_still :
        (q : ℕ) (t : C.Time) → C.Knows q (w.clocks q) t → C.Knows q (update w.clocks p c q) t
    knows_still q t k = elim (Bool-cases (p == q)) [
      | inl same ↦
          let e : p ≡ q = ground arith in
          rw same (
            C.Knows-before q (w.clocks q) c t (h.times q) is_time
              (subst (λ r. C.IsBefore (w.clocks r) c) e after) k)
      | inr other ↦ rw other k
    ]

    pub knows_new : (q : ℕ) → C.Knows q (update w.clocks p c q) c
    knows_new q = elim (Bool-cases (p == q)) [
      | inl same ↦ rw same (C.Knows_self q c)
      | inr other ↦ rw other (others q (λ e. ground arith))
    ]

    Carries-new :
        (ms : List (ℕ × C.Time))
        → All (λ m. m.0 < w.fresh) ms
        → All (Carries w.log) ms
        → All (Carries (record { process = p; kind = kind; stamp = c } ∷ w.log)) ms
    Carries-new [] old k = tt
    Carries-new (m ∷ ms) old k =
        ((λ e. absurd (omega (arith, is_new m.0 e, old.0)), k.0), Carries-new ms old.1 k.1)

    dominates :
        (es : List (Event C))
        → All (λ e. AtMost e.stamp (w.clocks e.process)) es
        → All (λ e. (k : ℕ) → e.kind ≡ sent k → kind ≡ received k → C.IsBefore e.stamp c) es
        → All (Dominates (record { process = p; kind = kind; stamp = c })) es
    dominates [] local remote = tt
    dominates (e ∷ es) local remote = (by_cause, dominates es local.1 remote.1)
      where
        by_cause : Dominates (record { process = p; kind = kind; stamp = c }) e
        by_cause (inl same) =
            AtMost-IsBefore _ _ _ local.0 (subst (λ r. C.IsBefore (w.clocks r) c) (sym same) after)
        by_cause (inr (k, s, r)) = remote.0 k s r

    clock_advances :
        (e : Event C)
        → AtMost e.stamp (w.clocks e.process)
        → AtMost e.stamp (update w.clocks p c e.process)
    clock_advances e old = elim (Bool-cases (p == e.process)) [
      | inl same ↦
          let at : p ≡ e.process = ground arith in
          rw same
            (inr (AtMost-IsBefore _ _ _ old (subst (λ r. C.IsBefore (w.clocks r) c) at after)))
      | inr other ↦ rw other old
    ]

    times_new : (q : ℕ) → C.IsTime (update w.clocks p c q)
    times_new q = elim (Bool-cases (p == q)) [
      | inl same ↦ rw same is_time
      | inr other ↦ rw other (h.times q)
    ]

    knows_all : (q r : ℕ) → C.Knows q (update w.clocks p c q) (update w.clocks p c r)
    knows_all q r = elim (Bool-cases (p == r)) [
      | inl same ↦
          subst (λ t. C.Knows q (update w.clocks p c q) t)
            (ap (λ b. if b then c else w.clocks r) (sym same)) (knows_new q)
      | inr other ↦
          subst (λ t. C.Knows q (update w.clocks p c q) t)
            (ap (λ b. if b then c else w.clocks r) (sym other))
            (knows_still q (w.clocks r) (h.knows q r))
    ]

    pub happens-IsSound : IsSound (record (happens C w p kind c) { fresh = n })
    happens-IsSound = record {
      times = times_new;
      knows = knows_all;
      network_times = h.network_times;
      network_known = All-imp w.network (λ m k q. knows_still q m.1 (k q)) h.network_known;
      network_old = All-imp w.network (λ m k. omega arith) h.network_old;
      network_carries = Carries-new w.network h.network_old h.network_carries;
      log_old =
          (λ k e. (is_new k e).1, All-imp w.log (λ e old k s. omega (arith, old k s)) h.log_old);
      log_clocks = (inl (ground arith), All-imp w.log (λ e old. clock_advances e old) h.log_clocks);
      stamped = (dominates w.log h.log_clocks message, h.stamped);
    }
