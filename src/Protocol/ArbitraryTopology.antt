-- ===== src/Protocol/ArbitraryTopology.antt =====
-- ArbitraryTopology.scala: a process passes messages on to its neighbours in a graph, in shells of
-- its own, and to itself. The neighbours of the process in the graph are given.
mod Samples
use scala_neko.Base.{
  ℕ, zero, suc, ◌+◌, ◌≤◌, ◌≡◌, refl, ap, ◌∙◌, Bool, true, false, not, ◌&&◌, ◌||◌, Option, none,
  some, List, [], ◌∷◌, ◌++◌, append-nil, ◌==◌, if◌then◌else◌, Bool-cases, inl, inr, arith,
}
use scala_neko.Base.Counts.{one, occurs}
use scala_neko.Topology.Sets.{elem, keep, intersect, elem-intersect}
use scala_neko.Network.Events.{Message, Event, multicast, signal, message, class_of, destinations}
use scala_neko.Network.Dispatchers.{Operation}
use scala_neko.Network.Dispatchers.Registered.{occurs-keep}
use scala_neko.Network.{NekoProcess, AbstractNetwork, Delivery, send}
use scala_neko.Network.Deliveries.{handled, is_call, gets, HasSets, handled-send}

-- `MessageShell(from, to, content)`
pub record MessageShell : Type 0 where
  pub from : ℕ
  pub to : List ℕ
  pub content : Message

-- What `onSend` does: it sends or it delivers.
pub data Action : Type 0 where
  sends_signal : ℕ → Action
  sends_shell : MessageShell → Action
  delivers : Message → Action

unfoldable pub on_send : ℕ → List ℕ → Event → List Action
on_send me neighborhood (signal kind) = sends_signal kind ∷ []
on_send me neighborhood (message m) =
    sends_shell (record { from = me; to = intersect (destinations m) neighborhood; content = m })
    ∷ (if elem me (destinations m) then delivers m ∷ [] else [])

unfoldable pub on_receive : MessageShell → Action
on_receive shell = delivers shell.content

-- What the network hands over, with the shell that it is, unless it is a signal.
pub record Arrival : Type 0 where
  pub delivery : Delivery
  pub shell : Option MessageShell

unfoldable pub arriving : Option MessageShell → List Delivery → List Arrival
arriving shell [] = []
arriving shell (d ∷ ds) = record { delivery = d; shell = shell } ∷ arriving shell ds

-- What the network hands over of the actions; shells are of the class `kind`.
unfoldable pub transmitted : AbstractNetwork → ℕ → List Action → List Arrival
transmitted net kind [] = []
transmitted net kind (sends_signal s ∷ rest) =
    arriving none (send net (signal s)) ++ transmitted net kind rest
transmitted net kind (sends_shell s ∷ rest) =
    arriving (some s) (send net (message (multicast kind s.from s.to))) ++ transmitted net kind rest
transmitted net kind (delivers m ∷ rest) = transmitted net kind rest

-- The messages that a process delivers.
unfoldable pub delivered : List Action → List Message
delivered [] = []
delivered (sends_signal s ∷ rest) = delivered rest
delivered (sends_shell s ∷ rest) = delivered rest
delivered (delivers m ∷ rest) = m ∷ delivered rest

-- What the protocol `x` of the process `q` delivers of the shells that it is handed.
abbrev pub of_shell : Option MessageShell → List Message
of_shell none = []
of_shell (some s) = delivered (on_receive s ∷ [])

unfoldable pub received : ℕ → ℕ → List Arrival → List Message
received q x [] = []
received q x (a ∷ arrivals) =
    let rest = received q x arrivals in
    if is_call q x a.delivery then of_shell a.shell ++ rest else rest

shell-HasSets :
    (net : AbstractNetwork) (history : ℕ → List Operation) (kind me : ℕ) (neighborhood : List ℕ)
    → (m : Message) → HasSets net history m
    → HasSets net history (multicast kind me (intersect (destinations m) neighborhood))
unfolding intersect
shell-HasSets net history kind me neighborhood m sets = record {
  neighbors = sets.neighbors;
  targets = λ q.
      let kept = occurs-keep q (λ x. elem x neighborhood) (destinations m) in
      let few = sets.targets q in ground (arith, kept, few);
  dispatchers = sets.dispatchers;
}

abbrev repeat : ℕ → Message → List Message
repeat zero m = []
repeat (suc n) m = m ∷ repeat n m

received-arriving :
    (q x : ℕ) (s : MessageShell) (ds : List Delivery)
    → received q x (arriving (some s) ds) ≡ repeat (handled q x ds) s.content
unfolding received arriving handled delivered on_receive
received-arriving q x s [] = refl
received-arriving q x s (d ∷ ds) =
    let rest = received-arriving q x s ds in
    let more : suc (handled q x ds) ≡ handled q x ds + 1 = omega arith in
    let same : handled q x ds ≡ handled q x ds + 0 = omega arith in
    elim (Bool-cases (is_call q x d)) [
      | inl e ↦ rw e (ap (s.content ∷◌) rest ∙ ap (λ n. repeat n s.content) more)
      | inr e ↦ rw e (rest ∙ ap (λ n. repeat n s.content) same)
    ]

repeat-one : (b : Bool) (m : Message) → repeat (one b) m ≡ (if b then m ∷ [] else [])
repeat-one true m = refl
repeat-one false m = refl

-- A message that is sent arrives at a process as it was, once, through the network, if it names this
-- process as a destination, the process is a neighbour in the graph and gets shells, and else not; and
-- the process that sends it delivers it itself exactly if it is among the destinations. A broadcast
-- names no destination, so that it arrives nowhere.
pub on_send-transmitted :
    (net : AbstractNetwork) (history : ℕ → List Operation) (kind me : ℕ) (neighborhood : List ℕ)
    → (m : Message) (q x : ℕ) → HasSets net history m
    → (received q x (transmitted net kind (on_send me neighborhood (message m))) ≡ (
        if (elem q (destinations m) && elem q neighborhood) && gets net history q kind x
        then m ∷ []
        else []))
      × (delivered (on_send me neighborhood (message m))
          ≡ (if elem me (destinations m) then m ∷ [] else []))
unfolding on_send transmitted delivered
on_send-transmitted net history kind me neighborhood m q x sets =
    let shell : Message = multicast kind me (intersect (destinations m) neighborhood) in
    let sent : MessageShell = record {
      from = me;
      to = intersect (destinations m) neighborhood;
      content = m;
    } in
    let through =
      handled-send net history shell (shell-HasSets net history kind me neighborhood m sets) q x in
    let listed = elem-intersect q (destinations m) neighborhood in
    let arrived : received q x (arriving (some sent) (send net (message shell))) ≡ (
        if (elem q (destinations m) && elem q neighborhood) && gets net history q kind x
        then m ∷ []
        else []) =
      received-arriving q x sent (send net (message shell))
      ∙ ap (λ n. repeat n m) through
      ∙ ap (λ b. repeat (one (b && gets net history q kind x)) m) listed
      ∙ repeat-one _ m in
    elim (Bool-cases (elem me (destinations m))) [
      | inl e ↦
          (rw (e, append-nil (arriving (some sent) (send net (message shell)))) arrived, rw e refl)
      | inr e ↦
          (rw (e, append-nil (arriving (some sent) (send net (message shell)))) arrived, rw e refl)
    ]
