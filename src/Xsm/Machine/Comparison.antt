-- ===== src/Xsm/Machine/Comparison.antt =====
-- The six comparisons agree with one another, on integers and on strings.
use myexpos.Prelude.{
  ◌≡◌, ◌∙◌, refl, sym, Bool, true, false, not, ◌||◌, ◌+◌, [], ◌∷◌, Bytes, arith, if◌then◌else◌,
}
use myexpos.Prelude.Int.{ℤ, pos, neg_part, pos_part}
use myexpos.Libc.{strcmp}
use myexpos.Xsm.Word.{Word, word_get_unix_type, word_get_integer, word_get_string}
use myexpos.Xsm.Machine.Data.{
  LogicalOp, lt, gt, eq, ne, ge, le, logical_test, logical_result, is_string,
}

abbrev IsOpposite : ℤ → ℤ → Type 0
IsOpposite a b = pos_part a + pos_part b ≡ neg_part a + neg_part b

strcmp-IsOpposite : (s t : Bytes) → IsOpposite (strcmp s t) (strcmp t s)
unfolding strcmp
strcmp-IsOpposite [] [] = refl
strcmp-IsOpposite [] (d ∷ t) = refl
strcmp-IsOpposite (c ∷ s) [] = refl
strcmp-IsOpposite (c ∷ s) (d ∷ t) = ground (arith, strcmp-IsOpposite s t)

-- The comparison with the operands exchanged.
abbrev pub converse : LogicalOp → LogicalOp
converse lt = gt
converse gt = lt
converse eq = eq
converse ne = ne
converse ge = le
converse le = ge

-- The comparison that holds where the other does not.
abbrev pub negation : LogicalOp → LogicalOp
negation lt = ge
negation gt = le
negation eq = ne
negation ne = eq
negation ge = lt
negation le = gt

test-negation :
    (op : LogicalOp) (a b : ℤ) → logical_test (negation op) a b ≡ not (logical_test op a b)
unfolding logical_test
test-negation lt a b = ground arith
test-negation gt a b = ground arith
test-negation eq a b = ground arith
test-negation ne a b = ground arith
test-negation ge a b = ground arith
test-negation le a b = ground arith

test-converse : (op : LogicalOp) (a b : ℤ) → logical_test (converse op) a b ≡ logical_test op b a
unfolding logical_test
test-converse lt a b = ground arith
test-converse gt a b = ground arith
test-converse eq a b = ground arith
test-converse ne a b = ground arith
test-converse ge a b = ground arith
test-converse le a b = ground arith

test-IsOpposite :
    (op : LogicalOp) (a b : ℤ)
    → IsOpposite a b
    → logical_test op a (pos 0) ≡ logical_test op (pos 0) b
unfolding logical_test
test-IsOpposite lt a b h = ground arith
test-IsOpposite gt a b h = ground arith
test-IsOpposite eq a b h = ground arith
test-IsOpposite ne a b h = ground arith
test-IsOpposite ge a b h = ground arith
test-IsOpposite le a b h = ground arith

strings_converse :
    (op : LogicalOp) (s t : Bytes)
    → logical_test (converse op) (strcmp s t) (pos 0) ≡ logical_test op (strcmp t s) (pos 0)
strings_converse op s t =
    test-converse op (strcmp s t) (pos 0)
    ∙ sym (test-IsOpposite op (strcmp t s) (strcmp s t) (strcmp-IsOpposite t s))

abbrev result_by : Bool → LogicalOp → Word → Word → Bool
result_by b op v w =
    if b
    then logical_test op (strcmp (word_get_string v) (word_get_string w)) (pos 0)
    else logical_test op (word_get_integer v) (word_get_integer w)

converse_by :
    (b c : Bool) (op : LogicalOp) (v w : Word)
    → result_by (b || c) (converse op) v w ≡ result_by (c || b) op w v
converse_by true true op v w = strings_converse op (word_get_string v) (word_get_string w)
converse_by true false op v w = strings_converse op (word_get_string v) (word_get_string w)
converse_by false true op v w = strings_converse op (word_get_string v) (word_get_string w)
converse_by false false op v w = test-converse op (word_get_integer v) (word_get_integer w)

negation_by :
    (b : Bool) (op : LogicalOp) (v w : Word)
    → result_by b (negation op) v w ≡ not (result_by b op v w)
negation_by true op v w = test-negation op _ (pos 0)
negation_by false op v w = test-negation op _ _

-- For any two words, integers or strings: GE, LE and NE are true exactly where LT, GT and EQ are
-- false, and a comparison has the same result as its converse (LT and GT, GE and LE, EQ and NE with
-- themselves) on the exchanged words.
pub logical_result_laws :
    (op : LogicalOp) (v w : Word)
    → (logical_result (negation op) v w ≡ not (logical_result op v w))
      × (logical_result (converse op) v w ≡ logical_result op w v)
unfolding logical_result
logical_result_laws op v w = (
  negation_by _ op v w,
  converse_by (is_string (word_get_unix_type v)) (is_string (word_get_unix_type w)) op v w,
)
