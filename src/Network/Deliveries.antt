-- ===== src/Network/Deliveries.antt =====
-- Who gets a message that is sent through the network.
use scala_neko.Base.{
  ℕ, ◌+◌, ◌≤◌, ◌≡◌, refl, ap, ◌∙◌, Bool, false, not, ◌&&◌, ◌||◌, Option, none, some, List, [], ◌∷◌,
  ◌++◌, ◌==◌, ==_iff, if◌then◌else◌, Bool-cases, inl, inr, arith,
}
use scala_neko.Base.Counts.{one, occurs}
use scala_neko.Topology.{Topology, or_empty}
use scala_neko.Topology.Sets.{elem, keep, keep-eq}
use scala_neko.Topology.Neighbors.{is_neighbor}
use scala_neko.Network.Events.{
  Message, Event, message, class_of, sender_of, destinations, is_broadcast,
}
use scala_neko.Network.Dispatchers.{
  Receiver, protocol, orphan_event_handler, protocols_for, Operation, after, is_listening, calls,
}
use scala_neko.Network.Dispatchers.Registered.{occurs-one, occurs-keep, protocols_for-after}
use scala_neko.Network.{
  NekoProcess, AbstractNetwork, Delivery, deliver_each, deliver, send_to, send_each, send,
  process_send,
}

-- How often a protocol at a process is in a list.
abbrev pub is_call : ℕ → ℕ → Delivery → Bool
is_call q x d =
    d.process == q && (elim d.receiver [ protocol p ↦ p == x | orphan_event_handler ↦ false ])

unfoldable pub handled : ℕ → ℕ → List Delivery → ℕ
handled q x [] = 0
handled q x (d ∷ ds) = handled q x ds + one (is_call q x d)

-- The destinations of a message in a topology.
abbrev pub is_destination : Topology → Message → ℕ → Bool
is_destination t m q =
    if is_broadcast m
    then is_neighbor t (sender_of m) q && not (q == sender_of m)
    else elem q (destinations m)

-- Whether a process is in the network, lets messages in, and has a protocol that is listening after
-- some operations on its dispatcher.
abbrev pub gets_of : Option NekoProcess → List Operation → ℕ → ℕ → Bool
gets_of none os clazz x = false
gets_of (some p) os clazz x = not p.receiver_drops && is_listening os clazz x

abbrev pub gets : AbstractNetwork → (ℕ → List Operation) → ℕ → ℕ → ℕ → Bool
gets net history q clazz x = gets_of (net.receivers q) (history q) clazz x

-- A topology and a message with sets of processes, and dispatchers with a history.
pub record HasSets (net : AbstractNetwork) (history : ℕ → List Operation) (m : Message)
    : Type 0 where
  pub neighbors : (p q : ℕ) → occurs q (or_empty (net.topology.neighbors_for p)) ≤ 1
  pub targets : (q : ℕ) → occurs q (destinations m) ≤ 1
  pub dispatchers :
      (q : ℕ) (p : NekoProcess) → net.receivers q ≡ some p → p.dispatcher ≡ after (history q)

handled-append :
    (q x : ℕ) (xs ys : List Delivery) → handled q x (xs ++ ys) ≡ handled q x xs + handled q x ys
unfolding handled
handled-append q x [] ys = omega arith
handled-append q x (d ∷ ds) ys = rw (handled-append q x ds ys) omega arith

handled-deliver_each :
    (q x dest : ℕ) (e : Event) (rs : List Receiver)
    → handled q x (deliver_each dest e rs) ≡ (if dest == q then calls x rs else 0)
unfolding handled deliver_each calls
handled-deliver_each q x dest e [] = ground arith
handled-deliver_each q x dest e (protocol p ∷ rs) =
    rw (handled-deliver_each q x dest e rs) ground arith
handled-deliver_each q x dest e (orphan_event_handler ∷ rs) =
    rw (handled-deliver_each q x dest e rs) ground arith

handled-deliver :
    (q x dest : ℕ) (e : Event) (o : Option NekoProcess) (os : List Operation)
    → ((p : NekoProcess) → o ≡ some p → p.dispatcher ≡ after os)
    → handled q x (deliver dest e o) ≡ (if dest == q then one (gets_of o os (class_of e) x) else 0)
unfolding handled
handled-deliver q x dest e none os h = ground arith
handled-deliver q x dest e (some p) os h =
    let called : calls x (protocols_for (class_of e) p.dispatcher)
        ≡ one (is_listening os (class_of e) x) =
      ap (λ d. calls x (protocols_for (class_of e) d)) (h p refl)
      ∙ (protocols_for-after os (class_of e)).0 x in
    elim (Bool-cases p.receiver_drops) [
      | inl r ↦ rw r (ground arith)
      | inr r ↦ rw (r, handled-deliver_each q x dest e, called) refl
    ]

module _ (net : AbstractNetwork) (history : ℕ → List Operation) (m : Message)
    (sets : HasSets net history m) (q x : ℕ) where
  -- Whether `send_to` lets the message through.
  abbrev passes : ℕ → Bool
  passes dest = elem dest (destinations m) || is_broadcast m

  abbrev got : ℕ
  got = one (gets net history q (class_of (message m)) x)

  handled-send_to :
      (dest : ℕ)
      → handled q x (send_to net dest m) ≡ (if dest == q then (if passes q then got else 0) else 0)
  unfolding send_to handled
  handled-send_to dest =
      let delivered =
        handled-deliver q x dest (message m) (net.receivers dest) (history dest)
          (sets.dispatchers dest) in
      elim (Bool-cases (dest == q)) [
        | inl e ↦
            let here = (==_iff dest q).0 e in
            let to_q : handled q x (deliver dest (message m) (net.receivers dest)) ≡ got =
              delivered ∙ rw e (ap (λ i. one (gets net history i (class_of (message m)) x)) here) in
            elim (Bool-cases (passes q)) [
              | inl f ↦ rw (ap passes here ∙ f, e, f) to_q
              | inr f ↦ rw (ap passes here ∙ f, e, f) refl
            ]
        | inr e ↦
            let nothing : handled q x (deliver dest (message m) (net.receivers dest)) ≡ 0 =
              delivered ∙ ground (arith, e) in
            elim (Bool-cases (passes dest)) [ inl f ↦ rw (f, e) nothing | inr f ↦ rw (f, e) refl ]
      ]

  handled-send_each :
      (dests : List ℕ)
      → occurs q dests ≤ 1
      → handled q x (send_each net m dests)
        ≡ (if elem q dests then (if passes q then got else 0) else 0)
  unfolding send_each handled elem occurs
  handled-send_each [] h = refl
  handled-send_each (dest ∷ dests) h =
      let single = handled-send_to dest in
      let rest = handled-send_each dests (omega (arith, h)) in
      let absent = occurs-one q dests (omega (arith, h)) in
      handled-append q x (send_to net dest m) (send_each net m dests)
      ∙ ground (arith, single, rest, absent, h)

  pub handled-send :
      handled q x (send net (message m))
      ≡ one (is_destination net.topology m q && gets net history q (class_of (message m)) x)
  unfolding send
  handled-send = elim (Bool-cases (is_broadcast m)) [
    | inl e ↦
        let others : List ℕ =
          keep (λ dest. not (dest == sender_of m))
            (or_empty (net.topology.neighbors_for (sender_of m))) in
        let bound = sets.neighbors (sender_of m) q in
        let kept =
          occurs-keep q (λ dest. not (dest == sender_of m))
            (or_empty (net.topology.neighbors_for (sender_of m))) in
        let few : occurs q others ≤ 1 = ground (arith, bound, kept) in
        let sent = handled-send_each others few in
        let listed =
          keep-eq (λ dest. not (dest == sender_of m)) q
            (or_empty (net.topology.neighbors_for (sender_of m))) in
        rw e (sent ∙ rw (listed, e) (ground arith))
    | inr e ↦ rw e (handled-send_each (destinations m) (sets.targets q) ∙ rw e (ground arith))
  ]

  -- Of a message that a process sends through the network, the protocol `x` of the process `q` is
  -- handed one copy if the sender drops nothing, the message is for `q`, that is, by name or as
  -- a broadcast from a neighbour, `q` is in the network and drops nothing, and `x` is listening to
  -- the class of the message; and else none.
  pub handled-process_send :
      (p : NekoProcess)
      → handled q x (process_send net p (message m))
        ≡ one (
            not p.sender_drops
            && (is_destination net.topology m q && gets net history q (class_of (message m)) x))
  unfolding process_send handled
  handled-process_send p = elim (Bool-cases p.sender_drops) [
    | inl e ↦ rw e (ground arith)
    | inr e ↦ rw e handled-send
  ]
