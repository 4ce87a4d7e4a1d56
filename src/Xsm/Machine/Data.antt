-- ===== src/Xsm/Machine/Data.antt =====
-- The instructions of xsm/machine.c that move and compute words: MOV, PORT, arithmetic, comparison,
-- ENCRYPT, and the jumps.
use myexpos.Prelude.{ℕ, Bool, true, false, ◌&&◌, ◌||◌, not, Option, none, some, if◌then◌else◌}
use myexpos.Prelude.Int.{ℤ, pos, negsuc, add32, sub32, mul32, div_ℤ, mod_ℤ, ltb_ℤ, leb_ℤ, eq_ℤ}
use myexpos.Libc.{strcmp}
use myexpos.Xsm.Word.{
  Word, UnixType, word_get_unix_type, word_get_integer, word_get_string, word_encrypt,
}
use myexpos.Xsm.Registers.{registers_get_register_code}
use myexpos.Xsm.State.{
  M, ◌>>=◌, ◌>>◌, pure, gets, modify, undefined, Loc, in_reg, peek, poke, get_integer,
  store_integer, store_string, copy, Token, register, number, string, dref_l, comma,
  illegal_instruction, arithmetic,
}
use myexpos.Xsm.Machine.Base.{
  machine_get_mode, machine_get_ipreg, machine_register_exception, machine_translate_address,
  machine_memory_get_word, machine_get_register, oper_fetch,
}
use myexpos.Xsm.Machine.Tokens.{
  tokenize_next_token, tokenize_peek, tokenize_skip_token, token_register, token_number,
}

abbrev pub is_string : UnixType → Bool
is_string UnixType.string = true
is_string UnixType.integer = false

-- registers_get_integer; a name that is no register is a null pointer that is followed.
unfoldable pub registers_get_integer : Option ℕ → M ℤ
registers_get_integer none = undefined
registers_get_integer (some code) = get_integer (in_reg code)

unfoldable pub address_operand : Token → M ℤ
address_operand (register name) = registers_get_integer (registers_get_register_code name)
address_operand (number n) = pure n
address_operand _ = machine_register_exception "Invalid memory derefence" illegal_instruction

unfoldable pub machine_get_address_int : Bool → M ℤ
machine_get_address_int write = do
  tokenize_skip_token
  token ← tokenize_next_token
  address ← address_operand token
  tokenize_skip_token
  m ← machine_get_mode
  machine_translate_address address write oper_fetch m

unfoldable pub machine_get_address : Bool → M Loc
machine_get_address write = do
  address ← machine_get_address_int write
  machine_memory_get_word address

-- The left operand of MOV; `none` is the pointer that the switch leaves unset.
unfoldable pub mov_left : Token → M (Option Loc)
mov_left dref_l = do
  a ← machine_get_address_int true
  modify (λ s. record s { cpu = record (s.cpu) { mem_left = a } })
  l ← machine_memory_get_word a
  pure (some l)
mov_left (register name) = do l ← machine_get_register name; tokenize_skip_token; pure (some l)
mov_left _ = pure none

abbrev pub is_comma : Token → Bool
is_comma comma = true
is_comma _ = false

unfoldable pub expect_comma : Prim.Native.String.String → M (Unit {0})
expect_comma message = do
  token ← tokenize_next_token
  if is_comma token then pure tt else machine_register_exception message illegal_instruction

abbrev pub with_left : Option Loc → (Loc → M (Unit {0})) → M (Unit {0})
with_left none f = undefined
with_left (some l) f = f l

unfoldable pub mov_right : Option Loc → Token → M (Unit {0})
mov_right l dref_l = do r ← machine_get_address false; with_left l (λ d. copy d r)
mov_right l (register name) = do
  r ← machine_get_register name
  with_left l (λ d. copy d r)
  tokenize_skip_token
mov_right l (number n) = do with_left l (λ d. store_integer d n); tokenize_skip_token
mov_right l (string str) = do with_left l (λ d. store_string d str); tokenize_skip_token
mov_right l _ = pure tt

-- MOV and PORT.
unfoldable pub machine_execute_mov : M (Unit {0})
machine_execute_mov = do
  token ← tokenize_peek
  l ← mov_left token
  expect_comma "Malformed instruction"
  token ← tokenize_peek
  mov_right l token

pub data ArithOp : Type 0 where
  add sub mul div mod_op : ArithOp

-- -2^31 / -1 has no value of type `int`, and C leaves the operation open. (Sums, differences and
-- products out of range wrap, as the machine code that is compiled for them does.)
abbrev pub div_overflows : ℤ → ℤ → Bool
div_overflows l r = eq_ℤ r (negsuc 0) && eq_ℤ l (negsuc 2147483647)

unfoldable pub arith_result : ArithOp → ℤ → ℤ → M ℤ
arith_result add l r = pure (add32 r l)
arith_result sub l r = pure (sub32 l r)
arith_result mul l r = pure (mul32 l r)
arith_result div l r =
    if eq_ℤ r (pos 0)
    then machine_register_exception "Integer division by zero" arithmetic
    else if div_overflows l r
    then undefined
    else pure (div_ℤ l r)
arith_result mod_op l r =
    if eq_ℤ r (pos 0)
    then machine_register_exception "Integer modulo by zero" arithmetic
    else if div_overflows l r
    then undefined
    else pure (mod_ℤ l r)

unfoldable pub arith_left : Token → M Loc
arith_left (register name) = machine_get_register name
arith_left _ = machine_register_exception "Wrong operand" illegal_instruction

unfoldable pub arith_right : Token → M ℤ
arith_right (number n) = pure n
arith_right t = do r ← token_register t; get_integer r

unfoldable pub machine_execute_arith : ArithOp → M (Unit {0})
machine_execute_arith op = do
  token ← tokenize_next_token
  l_operand ← arith_left token
  l_value ← get_integer l_operand
  tokenize_skip_token
  token ← tokenize_next_token
  r_value ← arith_right token
  result ← arith_result op l_value r_value
  store_integer l_operand result

-- INR and DCR.
pub data UnaryOp : Type 0 where
  inr dcr : UnaryOp

abbrev pub unary_result : UnaryOp → ℤ → ℤ
unary_result inr val = add32 val (pos 1)
unary_result dcr val = sub32 val (pos 1)

unfoldable pub machine_execute_unary : UnaryOp → M (Unit {0})
machine_execute_unary op = do
  token ← tokenize_next_token
  arg_reg ← token_register token
  val ← get_integer arg_reg
  store_integer arg_reg (unary_result op val)

pub data LogicalOp : Type 0 where
  lt gt eq ne ge le : LogicalOp

-- A comparison of two integers; that of strings compares strcmp's result with 0.
unfoldable pub logical_test : LogicalOp → ℤ → ℤ → Bool
logical_test lt a b = ltb_ℤ a b
logical_test gt a b = ltb_ℤ b a
logical_test eq a b = eq_ℤ a b
logical_test ne a b = not (eq_ℤ a b)
logical_test ge a b = leb_ℤ b a
logical_test le a b = leb_ℤ a b

unfoldable pub logical_result : LogicalOp → Word → Word → Bool
logical_result op left right =
    if is_string (word_get_unix_type left) || is_string (word_get_unix_type right)
    then logical_test op (strcmp (word_get_string left) (word_get_string right)) (pos 0)
    else logical_test op (word_get_integer left) (word_get_integer right)

unfoldable pub machine_execute_logical : LogicalOp → M (Unit {0})
machine_execute_logical op = do
  token ← tokenize_next_token
  left ← token_register token
  expect_comma "Incorrect logical instruction."
  token ← tokenize_next_token
  right ← token_register token
  result ← gets (λ s. logical_result op (peek left s) (peek right s))
  store_integer left (if result then pos 1 else pos 0)

pub data JumpOp : Type 0 where
  jz jnz jmp : JumpOp

-- The content of a jump's register as a test: a string is true.
unfoldable pub word_test : Word → Bool
word_test w =
    if is_string (word_get_unix_type w) then true else not (eq_ℤ (word_get_integer w) (pos 0))

-- The test and the target of a jump. A target that is no number is read only if the jump is taken.
unfoldable pub jump_operands : Token → M (Bool × Option ℤ)
jump_operands (number n) = pure (true, some n)
jump_operands t = do
  r ← token_register t
  test ← gets (λ s. word_test (peek r s))
  tokenize_skip_token
  token ← tokenize_next_token
  pure (test, token_number token)

abbrev pub jump_taken : JumpOp → Bool → Bool
jump_taken jz test = not test
jump_taken jnz test = test
jump_taken jmp test = test

unfoldable pub jump_to : Bool → Option ℤ → M (Unit {0})
jump_to false target = pure tt
jump_to true none = undefined
jump_to true (some target) = store_integer machine_get_ipreg target

unfoldable pub machine_execute_jump : JumpOp → M (Unit {0})
machine_execute_jump op = do
  token ← tokenize_next_token
  (test, target) ← jump_operands token
  jump_to (jump_taken op test) target

unfoldable pub machine_execute_encrypt : M (Unit {0})
machine_execute_encrypt = do
  token ← tokenize_next_token
  reg ← token_register token
  modify (λ s. poke reg (word_encrypt (peek reg s)) s)
