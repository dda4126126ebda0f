-- ===== src/Lib.antt =====
-- Verification of ScalaNeko: the scripts of its published documentation, and protocols of the
-- platform itself.
--
-- Base: shared names, tests on numbers, lists over the native numbers, strings as lists of codes.
--
-- Docs: the scripts in docs/latest/api/lib.
--   Docs.Scheduler is scheduler.js: the record `Scheduler` has the two parallel arrays, the id of
--   the timer and, for the browser, the number of callbacks that it owes; one function per method.
--   `Calls` lists what page code and jobs may do to it. The values of the language and the
--   application of a function are the parameter `Host`. The callback of `setTimeout` is `fire`, and
--   `Runs.Step` lets calls and callbacks come in any order. `Runs.drain` takes fuel, one unit for a
--   callback; it is enough when it exceeds the number of jobs that wait.
--   Docs.Template is template.js: a page is the record `Page` of the controls and of the members that
--   they hide; `Filter` is `filter`, `Handlers` the handlers and what exposeMember does to the
--   filters. The engine of regular expressions is a parameter. `Inherit` is `initInherit`, which copies
--   the members of a page below the headings of ancestors and groups, on a record `Document` of its
--   own; a `TypeError` is a missing result. It runs after the first filtering of a page: `load` takes
--   what it leaves below the headings as an argument. The comments that a click opens are left out,
--   since what happens to them depends on what is displayed around them and on clones with the same
--   id; so is scrolling.
--   Docs.Navigation is handleKeyNavigation of index.js: the iterator over the results, whose position
--   is the index plus one, and the handler of the keys. Scrolling and clicks are left out.
--   Docs.InsertSorted is insertSorted of index.js, with string comparison on the codes.
--
--   Docs.Search is searchAll of index.js with all that it queues on the scheduler: a job is an id of
--   a closure, `Search.Jobs` has the page, the closures and the function `effect` that runs one,
--   and `Jobs.run` makes callbacks until none is owed. `run` takes fuel, a unit for a callback; three
--   for each package and one more are enough. The promise of searchEntity settles before the next
--   callback. The engine of regular expressions is a parameter here too, with the patterns that its
--   constructor takes and the language's `toLowerCase`; for other patterns `search_all` throws.
--   `Search.Url` is QueryString; what the browser makes of an address is a parameter of its theorem.
--   Docs.Diagrams is diagrams.js: the attributes of class names by the positions of the elements, what
--   the mouse toggles, and in `Containers` the sizes and the links that show and hide the diagrams. The
--   animations of a diagram run one after the other, and a diagram is visible while it slides up;
--   `Toggle` lets clicks and ends of animations come in any order, and `Clicks` tells those that wait
--   from those that do not. The zoom of a third-party script, full screen and the start of a page are
--   left out.
--   Docs.Strings has what these scripts use of the strings of their language.
--
-- Protocol: protocols of the platform, src/main/scala/neko/protocol. `Protocol.Message` has what they
-- take of Event.scala. Process identifiers are numbers, and an array over them is a function.
--   Protocol.Fifo is FIFOChannel.scala: the state of one process with its two handlers, the priority
--   queue as a sorted list. `Channel` and `Invariant` are about one pair of processes, `Network` runs
--   all of them with packets on their way, and `Order` has the properties.
--   Protocol.LogicalClock is what the clocks share: an interface of values and laws, the system of
--   processes, messages and timestamped events over it, in `Invariant` what holds in its runs, and in
--   `Causality` the clock condition.
--   Protocol.LamportClock and Protocol.VectorClock are the two scala files, each with its instance.
--   The counters and clocks, of type Long in the source, have no bound here: the model speaks of runs
--   with fewer than 2 ^ 63 events at each of them.
--   Protocol.Safra is SafraTerminationDetection.scala: the state of a process with both handlers, a
--   handler that throws as a result of its own. `Network` runs the processes, `Probe` and `Changes`
--   are about what a token knows, `Invariant` about where it is, and `Detection` and `Liveness` have
--   the properties. Counts are integers without bounds; three arrivals of the token for each process
--   are enough fuel for `Hops.hops`.
--
--   Protocol.RoundBased is RoundBased.scala: the state of a process with both handlers. In `Network`
--   the layer above a process sends in rounds that the process has begun, as the source asks for;
--   `Counts` has the sums over all processes, `Invariant`, `Submit` and `Receive` keep the books of
--   the packets of each round, `Rounds` says what a round is and `Progress` that it begins. Rounds,
--   of type Int in the source, have no bound here.
--
-- Active: src/main/scala/neko/ActiveProtocol.scala and StashedReceive.scala. The record
-- `ActiveProtocol` has the queue of a process and its stash; `receive_or_stash` is ReceiveOrStash on the
-- events that are in the queue, which either handles one or waits. The equality of events is a
-- parameter. Waiting with a timeout and sleep are left out.
--
-- Kernel: src/main/scala/neko/kernel.
--   Kernel.Scheduler is Scheduler.scala with Task.scala, SequentialScheduler.scala, sim/Simulator.scala
--   and ../Timer.scala: the record `Scheduler` has the queue, the clock, the last id given to a task,
--   the rest of the program as a parameter, and the executions so far. An action is a `Script` of the
--   operations of the timer that it calls; `execute_next` is one step, and `Batch` says what it
--   executes. The loop of the simulator takes fuel, a unit for a step; a unit for every task is
--   enough when the tasks schedule no others. Times and ids, of type Long in the source, have no
--   bound here, as for the clocks.
--   Kernel.Activities is ActivityManager.scala with the wrapper of ManagedActivity.scala: a manager has
--   the activities, each with its status and the place of its thread, and `Step` lets threads and
--   the barrier take their steps in any order. The barrier is that of the language's library: it runs
--   its action when all have come, and lets all go. Actions are arbitrary functions that may call
--   `reset`; the interruption of threads and `whenDone` are left out.
--
-- Topology: src/main/scala/neko/topology. `Topology` has the processes and the function to neighbours
-- of a topology; `Combinator`, `Clique` and `Ring` are the files of these names, a ring over a range with any step, `Sets` has the operations on
-- sets, as lists in any order, and `Neighbors` the relation of neighbours. The graph that lies under
-- a topology, and its connection and number of edges, belong to a library and are left out.
--
-- Network: src/main/scala/neko/network/Network.scala with NekoProcess.scala, kernel/Dispatcher.scala and
-- Event.scala. `Network.Events` has the kinds of messages, `Dispatchers` which protocols of a process an
-- event is handed to, and `Network` itself the path of an event from the process that sends it. What
-- a protocol is handed is an entry of a list; what it does then belongs to the protocol. Delays are left
-- out: `Protocol` has networks as step relations. Protocol.ArbitraryTopology is ArbitraryTopology.scala
-- over this network.
mod Base
pub mod Docs
pub mod Protocol
pub mod Active
pub mod Kernel
pub mod Topology
pub mod Network
