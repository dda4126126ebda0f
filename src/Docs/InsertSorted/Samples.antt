-- ===== src/Docs/InsertSorted/Samples.antt =====
-- insertSorted on lists of a few items.
use scala_neko.Base.{◌≡◌, refl, [], ◌∷◌}
use scala_neko.Base.Text.{codes}
use scala_neko.Docs.InsertSorted.{gtb, before_li, insert_sorted, insert_sorted_lem}

program : Unit {0}
unfolding gtb before_li insert_sorted
program = tt

-- A list in order that is out of order afterwards: b is put between c and d.
insert_sorted-b :
    insert_sorted (codes "c" ∷ codes "d" ∷ []) (codes "b") ≡ codes "c" ∷ codes "b" ∷ codes "d" ∷ []
unfolding program
insert_sorted-b = refl

insert_sorted_lem_example :
    (insert_sorted (codes "a" ∷ []) (codes "b") ≡ codes "a" ∷ codes "b" ∷ [])
    × (insert_sorted (codes "c" ∷ codes "d" ∷ codes "a" ∷ []) (codes "b")
        ≡ codes "c" ∷ codes "b" ∷ codes "d" ∷ codes "a" ∷ [])
unfolding program
insert_sorted_lem_example =
    insert_sorted_lem (codes "b") (codes "d") (codes "c" ∷ []) (codes "a" ∷ []) refl (refl, tt)
