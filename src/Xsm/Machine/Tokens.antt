-- ===== src/Xsm/Machine/Tokens.antt =====
-- xsm/tokenize.c, the lexer's input (machine_serve_instruction of xsm/machine.c), and the parts of a
-- token.
use myexpos.Prelude.{
  ℕ, suc, ◌+◌, false, Option, none, some, [], ◌∷◌, ◌++◌, Bytes, ltb, ◌==◌, take, if◌then◌else◌,
  replicate, length,
}
use myexpos.Prelude.Int.{ℤ, pos, add32}
use myexpos.Xsm.Word.{Word}
use myexpos.Xsm.Lexer.{Scan, found, open_string, exhausted, scan, scan_close}
use myexpos.Xsm.Memory.{memory_size}
use myexpos.Xsm.State.{
  hangs, M, ◌>>=◌, ◌>>◌, pure, gets, modify, undefined, Loc, in_mem, get_integer, store_integer,
  Token, register, number, string, instruction, illegal_instruction,
}
use myexpos.Xsm.Machine.Base.{
  machine_get_mode, machine_get_ipreg, machine_register_exception, machine_translate_address,
  machine_memory_get_word, machine_get_register, instr_fetch,
}

-- The trimming loop on the first word: from the first NUL on, blanks.
unfoldable pub blank_out : Bytes → Bytes
blank_out [] = []
blank_out (c ∷ w) =
    let rest = blank_out w in if c == 0 then replicate (suc (length w)) b' ' else c ∷ rest

-- The buffer that is served: the first word trimmed, and the last byte of the second made a NUL.
unfoldable pub trim_buffer : Word → Word → Bytes
trim_buffer w₁ w₂ = blank_out w₁ ++ (take 15 w₂ ++ 0 ∷ [])

abbrev first_byte : Word → ℕ
first_byte [] = 0
first_byte (c ∷ w) = c

-- The two words at the instruction's physical address are copied; a copy that would reach over the
-- end of the memory is left open, as is one from anything but the memory.
unfoldable pub serve_words : ℤ → Loc → M Bytes
serve_words ip_val (in_mem a) = do
  w₁ ← gets (λ s. s.mem a)
  w₂ ← gets (λ s. s.mem (a + 1))
  if ltb (a + 1) memory_size
      then (if first_byte w₁ == 0
          then (do
            store_integer machine_get_ipreg (add32 ip_val (pos 2))
            machine_register_exception "The simulator has encountered a NULL instruction"
                illegal_instruction)
          else pure (trim_buffer w₁ w₂))
      else undefined
serve_words ip_val _ = undefined

unfoldable pub machine_serve_instruction : M Bytes
machine_serve_instruction = do
  ip_val ← get_integer machine_get_ipreg
  m ← machine_get_mode
  ip_val ← machine_translate_address ip_val false instr_fetch m
  instr_mem ← machine_memory_get_word ip_val
  serve_words ip_val instr_mem

-- The lexer has a token, or its string goes on in a buffer that is served anew. No progress is made
-- after that, since a buffer that is served again is the same.
unfoldable pub closed_token : Scan → M Token
closed_token (found (t, r)) = do modify (λ s. record s { buffer = r }); pure t
closed_token _ = hangs

unfoldable pub refilled_token : Scan → M Token
refilled_token (found (t, r)) = do modify (λ s. record s { buffer = r }); pure t
refilled_token (open_string front) = do
  b ← machine_serve_instruction
  closed_token (scan_close front b)
refilled_token exhausted = hangs

unfoldable pub buffered_token : Scan → M Token
buffered_token (found (t, r)) = do modify (λ s. record s { buffer = r }); pure t
buffered_token (open_string front) = do
  b ← machine_serve_instruction
  closed_token (scan_close front b)
buffered_token exhausted = do b ← machine_serve_instruction; refilled_token (scan b)

-- The lexer asks for input when its buffer has no further token.
unfoldable pub yylex : M Token
yylex = do b ← gets (λ s. s.buffer); buffered_token (scan b)

unfoldable pub take_lookahead : Option Token → M Token
take_lookahead (some t) = do modify (λ s. record s { lookahead = none }); pure t
take_lookahead none = yylex

unfoldable pub tokenize_next_token : M Token
tokenize_next_token = do l ← gets (λ s. s.lookahead); take_lookahead l

unfoldable pub peek_lookahead : Option Token → M Token
peek_lookahead (some t) = pure t
peek_lookahead none = do t ← yylex; modify (λ s. record s { lookahead = some t }); pure t

unfoldable pub tokenize_peek : M Token
tokenize_peek = do l ← gets (λ s. s.lookahead); peek_lookahead l

abbrev pub tokenize_skip_token : M (Unit {0})
tokenize_skip_token = do tokenize_next_token; pure tt

-- tokenize_clear_stream and tokenize_reset.
abbrev pub tokenize_clear_stream : M (Unit {0})
tokenize_clear_stream = modify (λ s. record s { buffer = [] })

abbrev pub tokenize_reset : M (Unit {0})
tokenize_reset = modify (λ s. record s { lookahead = none })

-- machine_get_register on the string of a token. A number is no pointer, and the other tokens leave
-- in `yylval` what an earlier token put there: C gives no meaning to either.
unfoldable pub token_register : Token → M Loc
token_register (register name) = machine_get_register name
token_register (string name) = machine_get_register name
token_register (instruction name) = machine_get_register name
token_register _ = undefined

-- The number of a token, where it has one.
abbrev pub token_number : Token → Option ℤ
token_number (number n) = some n
token_number _ = none
