-- ===== src/Spl/Label/Tests.antt =====
-- A small label table.
use myexpos.Prelude.{◌≡◌, ◌≢◌, ◌⊎◌, refl, some, [], ◌∷◌, Bytes, codes, arith}
use myexpos.Prelude.Int.{pos}
use myexpos.Spl.Label.{Label, Labels, initial, label_named, label_get, label_add, added, redeclared}
use myexpos.Spl.Label.Table.{Distinct, label_add_laws, made_up, made_up-Distinct}

abbrev one_label : Labels
one_label = record {
  root_label = label_named (codes "loop") ∷ [];
  namegen = pos 1;
  root_while = [];
}

label_add_laws_example :
    ((l : Label) × (label_get one_label (codes "done") ≡ some l)
      × (l.name ≡ codes "done")
      × (label_add (codes "done") one_label ≡ redeclared))
    ⊎ ((t : Labels) × (label_add (codes "done") one_label ≡ added (label_named (codes "done")) t)
        × Distinct t.root_label
        × (label_get t (codes "done") ≡ some (label_named (codes "done")))
        × ((other : Bytes) → codes "done" ≢ other → label_get t other ≡ label_get one_label other))
label_add_laws_example = label_add_laws (codes "done") one_label (tt, tt)

made_up-Distinct_example : Distinct (made_up 3 initial)
made_up-Distinct_example = made_up-Distinct 3 1 initial refl (omega arith)
