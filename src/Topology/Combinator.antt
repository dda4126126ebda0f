-- ===== src/Topology/Combinator.antt =====
-- Combinator.scala: the union, the intersection and the difference of two topologies.
use scala_neko.Base.{not, ◌&&◌, none, if◌then◌else◌}
use scala_neko.Topology.{Topology, or_empty}
use scala_neko.Topology.Sets.{elem, union, intersect, diff, some_unless_empty}

unfoldable pub union_of : Topology → Topology → Topology
union_of t1 t2 =
    let processes = union t1.process_set t2.process_set in
    record {
      process_set = processes;
      neighbors_for = λ p.
          if elem p processes
          then some_unless_empty
              (union (or_empty (t1.neighbors_for p)) (or_empty (t2.neighbors_for p)))
          else none;
      contains = λ p. elem p processes;
    }

unfoldable pub intersect_of : Topology → Topology → Topology
intersect_of t1 t2 = record {
  process_set = intersect t1.process_set t2.process_set;
  neighbors_for = λ p.
      some_unless_empty (intersect (or_empty (t1.neighbors_for p)) (or_empty (t2.neighbors_for p)));
  contains = λ p. t1.contains p && t2.contains p;
}

unfoldable pub diff_of : Topology → Topology → Topology
diff_of t1 t2 = record {
  process_set = diff t1.process_set t2.process_set;
  neighbors_for = λ p. some_unless_empty (diff (or_empty (t1.neighbors_for p)) t2.process_set);
  contains = λ p. t1.contains p && not (t2.contains p);
}
