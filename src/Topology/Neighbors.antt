-- ===== src/Topology/Neighbors.antt =====
-- The relation of neighbours, and what the combinators make of it.
use scala_neko.Base.{
  ℕ, ◌≡◌, refl, sym, ◌∙◌, Bool, true, false, not, ◌&&◌, ◌||◌, none, List, [], ◌∷◌, if◌then◌else◌,
  arith,
}
use scala_neko.Topology.{Topology, or_empty}
use scala_neko.Topology.Sets.{elem, union, some_unless_empty, elem-union, elem-intersect, elem-diff}
use scala_neko.Topology.Combinator.{union_of, intersect_of, diff_of}

abbrev pub is_neighbor : Topology → ℕ → ℕ → Bool
is_neighbor t p q = elem q (or_empty (t.neighbors_for p))

-- `contains` is about the set of processes, neighbours are processes, and neighbours of each other.
pub record IsSound (t : Topology) : Type 0 where
  pub contains_eq : (p : ℕ) → t.contains p ≡ elem p t.process_set
  pub from_process : (p q : ℕ) → is_neighbor t p q ≡ true → elem p t.process_set ≡ true
  pub to_process : (p q : ℕ) → is_neighbor t p q ≡ true → elem q t.process_set ≡ true
  pub symmetric : (p q : ℕ) → is_neighbor t p q ≡ true → is_neighbor t q p ≡ true

neither : (a b : Bool) → (a ≡ true → false ≡ true) → (b ≡ true → false ≡ true) → false ≡ (a || b)
neither true b h k = h refl
neither false true h k = k refl
neither false false h k = refl

or_imp :
    (a b c d : Bool)
    → (a ≡ true → c ≡ true)
    → (b ≡ true → d ≡ true)
    → (a || b) ≡ true
    → (c || d) ≡ true
or_imp true b c d h k e = rw (h refl) refl
or_imp false b c d h k e = rw (k e) (ground arith)

and_imp :
    (a b c d : Bool)
    → (a ≡ true → c ≡ true)
    → (b ≡ true → d ≡ true)
    → (a && b) ≡ true
    → (c && d) ≡ true
and_imp true b c d h k e = rw (h refl) (k e)
and_imp false b c d h k e = absurd (cc e)

or_empty-some : (xs : List ℕ) → or_empty (some_unless_empty xs) ≡ xs
or_empty-some [] = refl
or_empty-some (x ∷ xs) = refl

contains-union_of :
    (t1 t2 : Topology) (p : ℕ) → (union_of t1 t2).contains p ≡ elem p (union_of t1 t2).process_set
unfolding union_of
contains-union_of t1 t2 p = refl

process_set-union_of :
    (t1 t2 : Topology) (p : ℕ)
    → elem p (union_of t1 t2).process_set ≡ (elem p t1.process_set || elem p t2.process_set)
unfolding union_of
process_set-union_of t1 t2 p = elem-union p _ _

in_union :
    (b : Bool) (xs ys : List ℕ) (q : ℕ)
    → (elem q xs ≡ true → b ≡ true)
    → (elem q ys ≡ true → b ≡ true)
    → elem q (or_empty (if b then some_unless_empty (union xs ys) else none))
      ≡ (elem q xs || elem q ys)
unfolding elem
in_union true xs ys q h k = rw (or_empty-some, elem-union) refl
in_union false xs ys q h k = neither (elem q xs) (elem q ys) h k

is_neighbor-union_of :
    (t1 t2 : Topology)
    → IsSound t1
    → IsSound t2
    → (p q : ℕ) → is_neighbor (union_of t1 t2) p q ≡ (is_neighbor t1 p q || is_neighbor t2 p q)
unfolding union_of
is_neighbor-union_of t1 t2 h1 h2 p q =
    in_union (elem p (union t1.process_set t2.process_set)) _ _ q
      (λ (k : is_neighbor t1 p q ≡ true). rw elem-union (ground (arith, h1.from_process p q k)))
      (λ (k : is_neighbor t2 p q ≡ true). rw elem-union (ground (arith, h2.from_process p q k)))

is_neighbor-intersect_of :
    (t1 t2 : Topology) (p q : ℕ)
    → is_neighbor (intersect_of t1 t2) p q ≡ (is_neighbor t1 p q && is_neighbor t2 p q)
unfolding intersect_of
is_neighbor-intersect_of t1 t2 p q = rw (or_empty-some, elem-intersect) refl

is_neighbor-diff_of :
    (t1 t2 : Topology) (p q : ℕ)
    → is_neighbor (diff_of t1 t2) p q ≡ (is_neighbor t1 p q && not (elem q t2.process_set))
unfolding diff_of
is_neighbor-diff_of t1 t2 p q = rw (or_empty-some, elem-diff) refl

-- Two processes are neighbours in the union of two topologies if they are in one of them, and the
-- union of sound topologies is sound.
pub union_of-IsSound :
    (t1 t2 : Topology)
    → IsSound t1
    → IsSound t2
    → IsSound (union_of t1 t2)
      × ((p q : ℕ) → is_neighbor (union_of t1 t2) p q ≡ (is_neighbor t1 p q || is_neighbor t2 p q))
union_of-IsSound t1 t2 h1 h2 =
    let eq = is_neighbor-union_of t1 t2 h1 h2 in
    (
      record {
        contains_eq = contains-union_of t1 t2;
        from_process = λ p q k.
            process_set-union_of t1 t2 p
            ∙ or_imp _ _ _ _ (h1.from_process p q) (h2.from_process p q) (sym (eq p q) ∙ k);
        to_process = λ p q k.
            process_set-union_of t1 t2 q
            ∙ or_imp _ _ _ _ (h1.to_process p q) (h2.to_process p q) (sym (eq p q) ∙ k);
        symmetric = λ p q k.
            eq q p ∙ or_imp _ _ _ _ (h1.symmetric p q) (h2.symmetric p q) (sym (eq p q) ∙ k);
      },
      eq,
    )

process_set-intersect_of :
    (t1 t2 : Topology) (p : ℕ)
    → elem p (intersect_of t1 t2).process_set ≡ (elem p t1.process_set && elem p t2.process_set)
unfolding intersect_of
process_set-intersect_of t1 t2 p = elem-intersect p _ _

contains-intersect_of :
    (t1 t2 : Topology)
    → IsSound t1
    → IsSound t2
    → (p : ℕ) → (intersect_of t1 t2).contains p ≡ elem p (intersect_of t1 t2).process_set
unfolding intersect_of
contains-intersect_of t1 t2 h1 h2 p = rw (elem-intersect, h1.contains_eq p, h2.contains_eq p) refl

-- Two processes are neighbours in the intersection of two topologies if they are in both, and the
-- intersection of sound topologies is sound.
pub intersect_of-IsSound :
    (t1 t2 : Topology)
    → IsSound t1
    → IsSound t2
    → IsSound (intersect_of t1 t2)
      × ((p q : ℕ)
          → is_neighbor (intersect_of t1 t2) p q ≡ (is_neighbor t1 p q && is_neighbor t2 p q))
intersect_of-IsSound t1 t2 h1 h2 =
    let eq = is_neighbor-intersect_of t1 t2 in
    (
      record {
        contains_eq = contains-intersect_of t1 t2 h1 h2;
        from_process = λ p q k.
            process_set-intersect_of t1 t2 p
            ∙ and_imp _ _ _ _ (h1.from_process p q) (h2.from_process p q) (sym (eq p q) ∙ k);
        to_process = λ p q k.
            process_set-intersect_of t1 t2 q
            ∙ and_imp _ _ _ _ (h1.to_process p q) (h2.to_process p q) (sym (eq p q) ∙ k);
        symmetric = λ p q k.
            eq q p ∙ and_imp _ _ _ _ (h1.symmetric p q) (h2.symmetric p q) (sym (eq p q) ∙ k);
      },
      eq,
    )

contains-diff_of :
    (t1 t2 : Topology) (p : ℕ) → (diff_of t1 t2).contains p ≡ (t1.contains p && not (t2.contains p))
unfolding diff_of
contains-diff_of t1 t2 p = refl

removed :
    (a b c : Bool)
    → a ≡ true
    → b ≡ true
    → c ≡ false
    → ((a && not b) ≡ false) × ((a && not c) ≡ true)
removed a b c x y z = (ground arith, ground arith)

-- If p and q are neighbours in a sound topology and only p is in the one taken away, then the
-- difference does not contain p, still gives q as a neighbour of p, and not p as one of q.
pub diff_of-removed :
    (t1 t2 : Topology) (p q : ℕ)
    → IsSound t1
    → IsSound t2
    → is_neighbor t1 p q ≡ true
    → elem p t2.process_set ≡ true
    → elem q t2.process_set ≡ false
    → ((diff_of t1 t2).contains p ≡ false)
      × (is_neighbor (diff_of t1 t2) p q ≡ true)
      × (is_neighbor (diff_of t1 t2) q p ≡ false)
diff_of-removed t1 t2 p q h1 h2 k a b = (
  contains-diff_of t1 t2 p
      ∙ (removed _ _ _ (h1.contains_eq p ∙ h1.from_process p q k) (h2.contains_eq p ∙ a) b).0,
  is_neighbor-diff_of t1 t2 p q ∙ (removed _ _ _ k a b).1,
  is_neighbor-diff_of t1 t2 q p ∙ (removed _ _ _ (h1.symmetric p q k) a b).0,
)
