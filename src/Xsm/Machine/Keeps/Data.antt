-- ===== src/Xsm/Machine/Keeps/Data.antt =====
-- The data instructions keep what their writes keep.
use Prim.Native.String.{String}
use myexpos.Prelude.{ℕ, Bool, true, false, Option, none, some}
use myexpos.Prelude.Int.{ℤ}
use myexpos.Xsm.Word.{word_encrypt}
use myexpos.Xsm.State.{Machine, M, modify, Loc, Token, register, number, string, dref_l, peek, poke}
use myexpos.Xsm.Machine.Tokens.{tokenize_skip_token}
use myexpos.Xsm.Machine.Data.{
  registers_get_integer, address_operand, machine_get_address_int, machine_get_address, mov_left,
  expect_comma, with_left, mov_right, machine_execute_mov, ArithOp, div, mod_op, arith_result,
  arith_left, arith_right, machine_execute_arith, UnaryOp, machine_execute_unary, LogicalOp,
  machine_execute_logical, JumpOp, jump_operands, jump_to, machine_execute_jump,
  machine_execute_encrypt,
}
use myexpos.Xsm.Machine.Keeps.{
  Keeps, Closed, exception-Keeps, store_integer-Keeps, store_string-Keeps, copy-Keeps, keeps_rules,
  returns, Keeps-bind,
}
use myexpos.Xsm.Machine.Keeps.Tokens.{
  machine_get_register-Keeps, machine_translate_address-Keeps, machine_memory_get_word-Keeps,
  tokenize_next_token-Keeps, tokenize_peek-Keeps, token_register-Keeps,
}
use myexpos.Xsm.Machine.Keeps.Stack.{mem_left-Keeps}

module _ {P : Machine → Type 0} (closed : Closed P) where
  registers_get_integer-Keeps : (o : Option ℕ) → Keeps P (registers_get_integer o)
  unfolding registers_get_integer
  registers_get_integer-Keeps none = search keeps_rules
  registers_get_integer-Keeps (some c) = search keeps_rules

  address_operand-Keeps : (t : Token) → Keeps P (address_operand t)
  unfolding address_operand
  address_operand-Keeps (register name) = registers_get_integer-Keeps _
  address_operand-Keeps (number n) = search keeps_rules
  address_operand-Keeps _ = exception-Keeps closed _ _

  pub skip-Keeps : Keeps P tokenize_skip_token
  skip-Keeps = search (keeps_rules, tokenize_next_token-Keeps)

  machine_get_address_int-Keeps : (w : Bool) → Keeps P (machine_get_address_int w)
  unfolding machine_get_address_int
  machine_get_address_int-Keeps w =
      search
        (
          keeps_rules,
          skip-Keeps,
          tokenize_next_token-Keeps,
          address_operand-Keeps,
          machine_translate_address-Keeps closed,
        )
        depth 12

  machine_get_address-Keeps : (w : Bool) → Keeps P (machine_get_address w)
  unfolding machine_get_address
  machine_get_address-Keeps w =
      search (keeps_rules, machine_get_address_int-Keeps, machine_memory_get_word-Keeps closed)

  mov_left-Keeps : (t : Token) → Keeps P (mov_left t)
  unfolding mov_left
  mov_left-Keeps dref_l =
      search
        (
          keeps_rules,
          machine_get_address_int-Keeps,
          (mem_left-Keeps closed),
          machine_memory_get_word-Keeps closed,
        )
        depth 10
  mov_left-Keeps (register name) =
      search (keeps_rules, machine_get_register-Keeps closed, skip-Keeps)
  mov_left-Keeps _ = search keeps_rules

  expect_comma-Keeps : (m : String) → Keeps P (expect_comma m)
  unfolding expect_comma
  expect_comma-Keeps m = search (keeps_rules, tokenize_next_token-Keeps, exception-Keeps closed)

  with_left-Keeps :
      (l : Option Loc) (f : Loc → M (Unit {0}))
      → ((d : Loc) → Keeps P (f d))
      → Keeps P (with_left l f)
  with_left-Keeps none f h = search keeps_rules
  with_left-Keeps (some d) f h = h d

  mov_right-Keeps : (l : Option Loc) (t : Token) → Keeps P (mov_right l t)
  unfolding mov_right
  mov_right-Keeps l dref_l =
      Keeps-bind _ _ (machine_get_address-Keeps false)
        (λ r. with_left-Keeps l _ (λ d. copy-Keeps closed d r))
  mov_right-Keeps l (register name) =
      Keeps-bind _ _ (machine_get_register-Keeps closed name)
        (λ r. Keeps-bind _ _ (with_left-Keeps l _ (λ d. copy-Keeps closed d r)) (λ _. skip-Keeps))
  mov_right-Keeps l (number n) =
      Keeps-bind _ _ (with_left-Keeps l _ (λ d. store_integer-Keeps closed d n)) (λ _. skip-Keeps)
  mov_right-Keeps l (string str) =
      Keeps-bind _ _ (with_left-Keeps l _ (λ d. store_string-Keeps closed d str)) (λ _. skip-Keeps)
  mov_right-Keeps l _ = search keeps_rules

  pub machine_execute_mov-Keeps : Keeps P machine_execute_mov
  unfolding machine_execute_mov
  machine_execute_mov-Keeps =
      search (keeps_rules, tokenize_peek-Keeps, mov_left-Keeps, expect_comma-Keeps, mov_right-Keeps)
        depth 10

  arith_result-Keeps : (op : ArithOp) (a b : ℤ) → Keeps P (arith_result op a b)
  unfolding arith_result
  arith_result-Keeps div a b = search (keeps_rules, exception-Keeps closed)
  arith_result-Keeps mod_op a b = search (keeps_rules, exception-Keeps closed)
  arith_result-Keeps _ a b = search keeps_rules

  arith_left-Keeps : (t : Token) → Keeps P (arith_left t)
  unfolding arith_left
  arith_left-Keeps (register name) = machine_get_register-Keeps closed name
  arith_left-Keeps _ = exception-Keeps closed _ _

  arith_right-Keeps : (t : Token) → Keeps P (arith_right t)
  unfolding arith_right
  arith_right-Keeps (number n) = search keeps_rules
  arith_right-Keeps _ = search (keeps_rules, token_register-Keeps closed)

  pub machine_execute_arith-Keeps : (op : ArithOp) → Keeps P (machine_execute_arith op)
  unfolding machine_execute_arith
  machine_execute_arith-Keeps op =
      search
        (
          keeps_rules,
          tokenize_next_token-Keeps,
          arith_left-Keeps,
          skip-Keeps,
          arith_right-Keeps,
          arith_result-Keeps,
          store_integer-Keeps closed,
        )
        depth 15

  pub machine_execute_unary-Keeps : (op : UnaryOp) → Keeps P (machine_execute_unary op)
  unfolding machine_execute_unary
  machine_execute_unary-Keeps op =
      search
        (
          keeps_rules,
          tokenize_next_token-Keeps,
          token_register-Keeps closed,
          store_integer-Keeps closed,
        )
        depth 10

  pub machine_execute_logical-Keeps : (op : LogicalOp) → Keeps P (machine_execute_logical op)
  unfolding machine_execute_logical
  machine_execute_logical-Keeps op =
      search
        (
          keeps_rules,
          tokenize_next_token-Keeps,
          token_register-Keeps closed,
          expect_comma-Keeps,
          store_integer-Keeps closed,
        )
        depth 15

  jump_operands-Keeps : (t : Token) → Keeps P (jump_operands t)
  unfolding jump_operands
  jump_operands-Keeps (number n) = search keeps_rules
  jump_operands-Keeps _ =
      search (keeps_rules, tokenize_next_token-Keeps, token_register-Keeps closed, skip-Keeps) depth
        10

  jump_to-Keeps : (b : Bool) (o : Option ℤ) → Keeps P (jump_to b o)
  unfolding jump_to
  jump_to-Keeps false o = search keeps_rules
  jump_to-Keeps true none = search keeps_rules
  jump_to-Keeps true (some n) = store_integer-Keeps closed _ n

  pub machine_execute_jump-Keeps : (op : JumpOp) → Keeps P (machine_execute_jump op)
  unfolding machine_execute_jump
  machine_execute_jump-Keeps op =
      search (keeps_rules, tokenize_next_token-Keeps, jump_operands-Keeps, jump_to-Keeps)

  encrypt-Keeps : (l : Loc) → Keeps P (modify (λ s. poke l (word_encrypt (peek l s)) s))
  unfolding modify
  encrypt-Keeps l = record { at = λ s h. returns (closed.put_encrypted l s h) }

  pub machine_execute_encrypt-Keeps : Keeps P machine_execute_encrypt
  unfolding machine_execute_encrypt
  machine_execute_encrypt-Keeps =
      search (keeps_rules, tokenize_next_token-Keeps, token_register-Keeps closed, encrypt-Keeps)
