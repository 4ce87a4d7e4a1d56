-- ===== src/Spl/Label/Table.antt =====
-- What the label table promises: declared labels are found, and their names are all different.
use myexpos.Prelude.{
  ℕ, zero, suc, ◌+◌, ◌≤◌, ◌≡◌, ◌≢◌, ◌∙◌, refl, ap, sym, true, false, none, some, List, [], ◌∷◌,
  Bytes, All, arith, Bool-cases, Option-cases, drop, ◌⊎◌, inl, inr,
}
use myexpos.Prelude.Int.{InInt, pos, ◌+ℤ◌, wrap32}
use myexpos.Libc.{atoi}
use myexpos.Libc.Strings.{same_strcmp, strcmp_refl}
use myexpos.Libc.Decimal.{atoi-print}
use myexpos.Spl.Label.{
  Label, Labels, label_named, label_create, find_label, label_get, added, redeclared, add_unless,
  label_add, has_name,
}

-- No two labels of a table have the same name.
abbrev pub Distinct : List Label → Type 0
Distinct [] = Unit
Distinct (l ∷ labels) = All (λ m. m.name ≢ l.name) labels × Distinct labels

has_name_refl : (l : Label) → has_name l l.name ≡ true
has_name_refl l = rw (strcmp_refl l.name) refl

differs_has_name : (l : Label) (name : Bytes) → l.name ≢ name → has_name l name ≡ false
differs_has_name l name d = elim (Bool-cases (has_name l name)) [
  | inl e ↦ absurd (d (same_strcmp l.name name (ground arith)))
  | inr e ↦ e
]

found_first :
    (l : Label) (labels : List Label) (name : Bytes)
    → has_name l name ≡ true
    → find_label (l ∷ labels) name ≡ some l
unfolding find_label
found_first l labels name e = rw e refl

found_later :
    (l : Label) (labels : List Label) (name : Bytes)
    → has_name l name ≡ false
    → find_label (l ∷ labels) name ≡ find_label labels name
unfolding find_label
found_later l labels name e = rw e refl

not_found :
    (labels : List Label) (name : Bytes)
    → find_label labels name ≡ none
    → All (λ m. m.name ≢ name) labels
not_found [] name h = tt
not_found (l ∷ labels) name h = elim (Bool-cases (has_name l name)) [
  | inl e ↦ (let f = found_first l labels name e in absurd cc)
  | inr e ↦ (
    λ same. (let r = has_name_refl l in cc),
    not_found labels name (sym (found_later l labels name e) ∙ h),
  )
]

found_name :
    (labels : List Label) (name : Bytes) (l : Label)
    → find_label labels name ≡ some l
    → l.name ≡ name
unfolding find_label
found_name [] name l h = ground arith
found_name (m ∷ labels) name l h = elim (Bool-cases (has_name m name)) [
  | inl e ↦
      (let same : m ≡ l = (let f = found_first m labels name e in cc) in
        rw (← same) (same_strcmp m.name name (ground arith)))
  | inr e ↦ found_name labels name l (sym (found_later m labels name e) ∙ h)
]

-- label_add refuses a name that a label of the table has. In a table whose names are all different
-- it puts a label of any other name, so that the names are again all different, the new label is
-- what label_get finds under its name, and under every other name it finds what it found before.
pub label_add_laws :
    (name : Bytes) (s : Labels)
    → Distinct s.root_label
    → ((l : Label) × (label_get s name ≡ some l)
        × (l.name ≡ name)
        × (label_add name s ≡ redeclared))
      ⊎ ((t : Labels) × (label_add name s ≡ added (label_named name) t)
          × Distinct t.root_label
          × (label_get t name ≡ some (label_named name))
          × ((other : Bytes) → name ≢ other → label_get t other ≡ label_get s other))
unfolding label_get label_add add_unless
label_add_laws name s d = elim (Option-cases (find_label s.root_label name)) [
  | inl e ↦ inr (
    record s { root_label = label_named name ∷ s.root_label },
    rw e refl,
    (not_found s.root_label name e, d),
    found_first (label_named name) s.root_label name (has_name_refl (label_named name)),
    λ other ne.
        found_later (label_named name) s.root_label other
          (differs_has_name (label_named name) other ne),
  )
  | inr (l, e) ↦ inl (l, e, found_name s.root_label name l e, rw e refl)
]

-- What successive calls of label_create return.
unfoldable pub made_up : ℕ → Labels → List Label
made_up zero s = []
made_up (suc n) s = let (l, t) = label_create s in l ∷ made_up n t

-- The name has the counter's value in it, which is read back behind its first two characters.
label_create-name :
    (s : Labels) → InInt s.namegen → atoi (drop 2 (label_create s).0.name) ≡ s.namegen
unfolding label_create
label_create-name s h = atoi-print s.namegen h

next_counter :
    (s : Labels) (k : ℕ)
    → s.namegen ≡ pos k
    → suc k ≤ 2147483647
    → (label_create s).1.namegen ≡ pos (suc k)
unfolding label_create ◌+ℤ◌ wrap32
next_counter s k e h = rw e (ground arith)

made_up-later :
    (n k : ℕ) (s t : Labels)
    → s.namegen ≡ pos k
    → InInt t.namegen
    → ((i : ℕ) → k ≤ i → t.namegen ≢ pos i)
    → k + n ≤ 2147483647
    → All (λ m. m.name ≢ (label_create t).0.name) (made_up n s)
unfolding made_up
made_up-later zero k s t e ht d h = tt
made_up-later (suc n) k s t e ht d h =
    let hs : InInt s.namegen = rw e (omega arith) in
    (
      λ same. d k (omega arith) (
          sym (label_create-name t ht)
          ∙ ap (λ name. atoi (drop 2 name)) (sym same)
          ∙ label_create-name s hs
          ∙ e),
      made_up-later n (suc k) ((label_create s).1) t (next_counter s k e (omega arith)) ht
          (λ i l. d i (omega arith)) (omega arith),
    )

-- While the counter, which is not negative, stays within an `int`, the names that successive calls of
-- label_create make up are all different.
pub made_up-Distinct :
    (n k : ℕ) (s : Labels) → s.namegen ≡ pos k → k + n ≤ 2147483647 → Distinct (made_up n s)
unfolding made_up
made_up-Distinct zero k s e h = tt
made_up-Distinct (suc n) k s e h =
    let hs : InInt s.namegen = rw e (omega arith) in
    let next = next_counter s k e (omega arith) in
    (
      made_up-later n (suc k) ((label_create s).1) s next hs
          (λ i l same. (let q = sym e ∙ same in ground arith)) (omega arith),
      made_up-Distinct n (suc k) ((label_create s).1) next (omega arith),
    )
