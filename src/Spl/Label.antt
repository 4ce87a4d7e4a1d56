-- ===== src/Spl/Label.antt =====
-- spl/label.c: the table of the labels that a program declares, the names of the labels that the
-- compiler makes up, and the stack of the while loops around a statement.
pub mod Table
mod Tests
use myexpos.Prelude.{
  Bool, true, false, Option, none, some, List, [], ◌∷◌, ◌++◌, Bytes, codes, if◌then◌else◌,
}
use myexpos.Prelude.Int.{ℤ, pos, add32, eq_ℤ}
use myexpos.Libc.{format_int, strcmp}

-- A label is its name: the list that it stands in is kept apart, in `root_label`.
pub record Label : Type 0 where
  pub name : Bytes

pub record While : Type 0 where
  pub start : Label
  pub end : Label

-- `_root_label`, `_namegen` and `_rootWhile`.
pub record Labels : Type 0 where
  pub root_label : List Label
  pub namegen : ℤ
  pub root_while : List While

abbrev pub initial : Labels
initial = record { root_label = []; namegen = pos 1; root_while = [] }

-- _label_create: strdup keeps the name.
abbrev pub label_named : Bytes → Label
label_named name = record { name = name }

unfoldable pub label_create : Labels → Label × Labels
unfolding format_int
label_create s = (
  label_named (codes "_L" ++ format_int s.namegen),
  record s { namegen = add32 s.namegen (pos 1) },
)

abbrev pub has_name : Label → Bytes → Bool
has_name l name = eq_ℤ (strcmp l.name name) (pos 0)

-- The loop of label_get.
unfoldable pub find_label : List Label → Bytes → Option Label
unfolding strcmp
find_label [] name = none
find_label (l ∷ labels) name =
    let rest = find_label labels name in if has_name l name then some l else rest

unfoldable pub label_get : Labels → Bytes → Option Label
unfolding find_label
label_get s name = find_label s.root_label name

-- A label that is declared again ends the compiler.
pub data Added : Type 0 where
  added : Label → Labels → Added
  redeclared : Added

unfoldable pub add_unless : Option Label → Bytes → Labels → Added
add_unless (some l) name s = redeclared
add_unless none name s =
    added (label_named name) (record s { root_label = label_named name ∷ s.root_label })

unfoldable pub label_add : Bytes → Labels → Added
unfolding add_unless label_get
label_add name s = add_unless (label_get s name) name s

abbrev pub label_get_name : Label → Bytes
label_get_name l = l.name

unfoldable pub label_push_while : Label → Label → Labels → Labels
label_push_while start end s = record s {
  root_while = record { start = start; end = end } ∷ s.root_while;
}

-- `none` is a null pointer that is followed, outside every loop.
unfoldable pub pop_from : List While → Labels → Option Labels
pop_from [] s = none
pop_from (w ∷ whiles) s = some (record s { root_while = whiles })

unfoldable pub label_pop_while : Labels → Option Labels
unfolding pop_from
label_pop_while s = pop_from s.root_while s

abbrev pub innermost : List While → Option While
innermost [] = none
innermost (w ∷ whiles) = some w

unfoldable pub label_get_while_end : Labels → Option Label
label_get_while_end s = elim (innermost s.root_while) [ none ↦ none | some w ↦ some w.end ]

unfoldable pub label_get_while_start : Labels → Option Label
label_get_while_start s = elim (innermost s.root_while) [ none ↦ none | some w ↦ some w.start ]
