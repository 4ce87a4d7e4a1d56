-- ===== src/Xfs/Labels/Pieces.antt =====
-- Phase one of xfs-interface/labels.c, on the pieces of a program that fgets reads.
use myexpos.Prelude.{
  ◌≡◌, ◌≢◌, ◌⊎◌, refl, sym, ap, ◌∙◌, inl, inr, ℕ, suc, ◌+◌, ◌*◌, Bool, true, false, Option, none,
  some, List, [], ◌∷◌, ◌++◌, Bytes, arith, All, Bool-cases,
}
use myexpos.Prelude.Int.{pos, eq_ℤ}
use myexpos.Libc.{strcmp}
use myexpos.Libc.Strings.{same_strcmp, strcmp_refl}
use myexpos.Xfs.Labels.{
  Label, labels_is_label, labels_get_name, labels_get_target, labels_insert, text_of, collect,
  phase_one_lines,
}

-- What a line does in phase one: it names the current address, or is an instruction of two words.
data Step (line : Bytes) (a : ℕ) (ls : List Label) : ℕ → List Label → Type 0 where
  label_line :
      (name : Bytes)
      → labels_is_label (text_of line) ≡ some true
      → labels_get_name (text_of line) ≡ some name
      → Step line a ls a (labels_insert name a ls)
  instruction_line : labels_is_label (text_of line) ≡ some false → Step line a ls (a + 2) ls

record Stepped (line : Bytes) (lines : List Bytes) (a : ℕ) (ls r : List Label) : Type 0 where
  address : ℕ
  labels : List Label
  step : Step line a ls address labels
  rest : phase_one_lines lines address labels ≡ some r

pair_name :
    (line : Bytes) (a : ℕ) (ls : List Label) (name : Option Bytes)
    → labels_is_label (text_of line) ≡ some true
    → labels_get_name (text_of line) ≡ name
    → (collect (some true) (text_of line) a ls ≡ none)
      ⊎ ((b : ℕ) × (ls' : List Label) × Step line a ls b ls'
          × (collect (some true) (text_of line) a ls ≡ some (b, ls')))
unfolding collect
pair_name line a ls none h e = inl (rw (collect, e) refl)
pair_name line a ls (some name) h e =
    inr (a, labels_insert name a ls, label_line name h e, rw (collect, e) refl)

collect-Step :
    (line : Bytes) (a : ℕ) (ls : List Label) (o : Option Bool)
    → labels_is_label (text_of line) ≡ o
    → (collect o (text_of line) a ls ≡ none)
      ⊎ ((b : ℕ) × (ls' : List Label) × Step line a ls b ls'
          × (collect o (text_of line) a ls ≡ some (b, ls')))
unfolding collect
collect-Step line a ls none h = inl refl
collect-Step line a ls (some true) h = pair_name line a ls (labels_get_name (text_of line)) h refl
collect-Step line a ls (some false) h = inr (a + 2, ls, instruction_line h, refl)

first_step :
    (line : Bytes) (lines : List Bytes) (a : ℕ) (ls r : List Label)
    → phase_one_lines (line ∷ lines) a ls ≡ some r
    → Stepped line lines a ls r
unfolding phase_one_lines
first_step line lines a ls r h =
    elim (collect-Step line a ls (labels_is_label (text_of line)) refl) [
      | inl e ↦
          (let stuck : phase_one_lines (line ∷ lines) a ls ≡ none = rw (phase_one_lines, e) refl in
            absurd (let no = sym stuck ∙ h in ground arith))
      | inr (b, ls', step, e) ↦
          (let on : phase_one_lines (line ∷ lines) a ls ≡ phase_one_lines lines b ls' =
              rw (phase_one_lines, e) refl in
            record { address = b; labels = ls'; step = step; rest = sym on ∙ h })
    ]

-- The instructions among the pieces: those that are no labels.
abbrev pub count_if : Option Bool → ℕ → ℕ
count_if none n = n
count_if (some true) n = n
count_if (some false) n = suc n

unfoldable pub instructions : List Bytes → ℕ
instructions [] = 0
instructions (line ∷ lines) = count_if (labels_is_label (text_of line)) (instructions lines)

-- A piece that is a label of that name.
pub record Defines (name line : Bytes) : Type 0 where
  pub is_label : labels_is_label (text_of line) ≡ some true
  pub named : labels_get_name (text_of line) ≡ some name

Step-address :
    {line : Bytes} {a b : ℕ} {ls m : List Label} (lines : List Bytes)
    → Step line a ls b m
    → b + 2 * instructions lines ≡ a + 2 * instructions (line ∷ lines)
unfolding instructions
Step-address lines (label_line name e f) = rw e refl
Step-address lines (instruction_line e) = rw e (omega arith)

-- The lines before leave the address of the instruction behind them.
after_lines :
    (before rest : List Bytes) (a : ℕ) (ls r : List Label)
    → phase_one_lines (before ++ rest) a ls ≡ some r
    → (m : List Label) × (phase_one_lines rest (a + 2 * instructions before) m ≡ some r)
unfolding instructions
after_lines [] rest a ls r h = (ls, ap (λ b. phase_one_lines rest b ls) (omega arith) ∙ h)
after_lines (line ∷ before) rest a ls r h =
    let s = first_step line (before ++ rest) a ls r h in
    let (m, k) = after_lines before rest s.address s.labels r s.rest in
    (m, ap (λ b. phase_one_lines rest b m) (sym (Step-address before s.step)) ∙ k)

get_target_here :
    (name : Bytes) (a : ℕ) (ls : List Label)
    → labels_get_target (labels_insert name a ls) name ≡ some a
unfolding labels_get_target
get_target_here name a ls = rw (strcmp_refl name) refl

get_target_there :
    (name other : Bytes) (a : ℕ) (ls : List Label)
    → other ≢ name
    → labels_get_target (labels_insert other a ls) name ≡ labels_get_target ls name
unfolding labels_get_target
get_target_there name other a ls d = elim (Bool-cases (eq_ℤ (strcmp other name) (pos 0))) [
  | inl e ↦ absurd (d (same_strcmp other name (ground arith)))
  | inr e ↦ rw e refl
]

Step-others :
    {line name : Bytes} {a b : ℕ} {ls m : List Label}
    → Step line a ls b m
    → ¬ Defines name line
    → labels_get_target m name ≡ labels_get_target ls name
Step-others {line} {name} {a} {b} {ls} (label_line other e f) d =
    get_target_there name other a ls (λ same. d (record { is_label = e; named = f ∙ ap some same }))
Step-others (instruction_line e) d = refl

Step-Defines :
    {line name : Bytes} {a b : ℕ} {ls m : List Label}
    → Step line a ls b m
    → Defines name line
    → labels_get_target m name ≡ some a
Step-Defines {line} {name} {a} {b} {ls} (label_line other e f) d =
    let same : name ≡ other = (let k = sym d.named ∙ f in cc) in
    rw same (get_target_here other a ls)
Step-Defines (instruction_line e) d = absurd (let k = sym d.is_label ∙ e in ground arith)

others_only :
    (lines : List Bytes) (name : Bytes) (a : ℕ) (ls r : List Label)
    → All (λ line. ¬ Defines name line) lines
    → phase_one_lines lines a ls ≡ some r
    → labels_get_target r name ≡ labels_get_target ls name
unfolding phase_one_lines
others_only [] name a ls r d h = (let same : r ≡ ls = cc in ap (λ m. labels_get_target m name) same)
others_only (line ∷ lines) name a ls r (d, ds) h =
    let s = first_step line lines a ls r h in
    others_only lines name s.address s.labels r ds s.rest ∙ Step-others s.step d

-- The same for a list of pieces that fgets has read.
pub target_in_pieces :
    (before after : List Bytes) (line name : Bytes) (labels : List Label)
    → phase_one_lines (before ++ line ∷ after) 0 [] ≡ some labels
    → Defines name line
    → All (λ l. ¬ Defines name l) after
    → labels_get_target labels name ≡ some (2 * instructions before)
target_in_pieces before after line name labels h d ds =
    let (m, k) = after_lines before (line ∷ after) 0 [] labels h in
    let s = first_step line after (0 + 2 * instructions before) m labels k in
    others_only after name s.address s.labels labels ds s.rest
    ∙ Step-Defines s.step d
    ∙ ap some {x = 0 + 2 * instructions before} {y = 2 * instructions before} (omega arith)
