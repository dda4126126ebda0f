-- ===== src/Protocol/Fifo/Order.antt =====
-- What the layer above gets: first in, first out on every channel.
use scala_neko.Base.{
  ℕ, ◌≡◌, refl, sym, false, List, [], ◌∷◌, ◌++◌, All, arith, drop, take-append-drop, ap, ◌∙◌,
}
use scala_neko.Protocol.Message.{Message}
use scala_neko.Protocol.Fifo.{FifoSequenced}
use scala_neko.Protocol.Fifo.Invariant.{is_on, on_way, all_delivered}
use scala_neko.Protocol.Fifo.Network.{
  World, start, arrive, Step, sends, arrives, Reach, here, next, Channel, start-Channel,
  submit-Channel, arrive-Channel,
}

module _ {ℓ} {A : Type ℓ} where
  pub Step-Channel : (p q : ℕ) {w v : World A} → Step w v → Channel p q w → Channel p q v
  Step-Channel p q {w} (sends m e) h = rw e (submit-Channel p q m w h)
  Step-Channel p q {w} (arrives xs k ys at e) h = rw e (arrive-Channel p q xs k ys w at h)

  pub Reach-Channel : (p q : ℕ) {w v : World A} → Reach w v → Channel p q w → Channel p q v
  Reach-Channel p q here h = h
  Reach-Channel p q (next r st) h = Step-Channel p q st (Reach-Channel p q r h)

  -- In every run, over a network that may hand packets over in any order, what a process was given
  -- of another one is a prefix of what that one sent to it, in the order of sending.
  pub delivered-prefix-sent :
      (p q : ℕ) {w : World A}
      → Reach start w
      → (rest : List (Message A)) × (w.sent p q ≡ w.delivered p q ++ rest)
  delivered-prefix-sent p q {w} r =
      let h = Reach-Channel p q r (start-Channel p q) in
      let nr = (w.procs q).next_receive_from p in
      (drop nr (w.sent p q), rw h.loose.so_far (sym (take-append-drop nr (w.sent p q))))

  none_on_way :
      (p q : ℕ) (flight : List (FifoSequenced A)) (i : ℕ)
      → All (λ k. is_on p q k ≡ false) flight
      → on_way p q i flight ≡ 0
  none_on_way p q [] i h = refl
  none_on_way p q (k ∷ ks) i h = ground (arith, h.0, none_on_way p q ks i h.1)

  -- When no packet from `p` to `q` is on its way, `q` was given all that `p` sent, in that order.
  pub delivered-eq-sent :
      (p q : ℕ) {w : World A}
      → Reach start w
      → All (λ k. is_on p q k ≡ false) w.in_flight
      → w.delivered p q ≡ w.sent p q
  delivered-eq-sent p q {w} r none =
      all_delivered (Reach-Channel p q r (start-Channel p q))
        (λ i. none_on_way p q w.in_flight i none)

  Reach-trans : {w v u : World A} → Reach w v → Reach v u → Reach w u
  Reach-trans r here = r
  Reach-trans r (next s st) = next (Reach-trans r s) st

  drains :
      (flight : List (FifoSequenced A)) (w : World A)
      → w.in_flight ≡ flight
      → (v : World A) × Reach w v × (v.in_flight ≡ []) × (v.sent ≡ w.sent)
  unfolding arrive
  drains [] w e = (w, here, e, refl)
  drains (k ∷ ks) w e =
      let (v, r, empty, same) = drains ks (arrive k ks w) refl in
      (v, Reach-trans (next here (arrives [] k ks e refl)) r, empty, same)

  -- From every state that a run reaches, the packets on their way can all arrive, and then every
  -- process was given exactly what was sent to it, in the order of sending.
  pub delivers_all :
      {w : World A}
      → Reach start w
      → (v : World A) × Reach w v × ((p q : ℕ) → v.delivered p q ≡ w.sent p q)
  delivers_all {w} r =
      let (v, rest, empty, same) = drains w.in_flight w refl in
      (
        v,
        rest,
        λ p q. delivered-eq-sent p q (Reach-trans r rest) (rw empty tt) ∙ ap (λ f. f p q) same,
      )
