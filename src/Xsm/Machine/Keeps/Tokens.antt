-- ===== src/Xsm/Machine/Keeps/Tokens.antt =====
-- Registers by name, addresses and tokens keep what the writes that they make keep.
use myexpos.Prelude.{arith, ℕ, Bytes, Bool, Option, none, some}
use myexpos.Prelude.Int.{ℤ}
use myexpos.Xsm.Lexer.{Scan, found, open_string, exhausted}
use myexpos.Xsm.State.{
  Machine, Mode, user, kernel, modify, Loc, in_mem, Token, register, string, instruction,
}
use myexpos.Xsm.Machine.Base.{
  check_register, find_register, machine_get_register, translation_failure, check_translation,
  machine_translate_address, check_word, machine_memory_get_word, Fetch, advance_ip,
  exception_set_ma, exception_set_epn,
}
use myexpos.Xsm.Machine.Tokens.{
  serve_words, machine_serve_instruction, closed_token, refilled_token, buffered_token, yylex,
  take_lookahead, tokenize_next_token, peek_lookahead, tokenize_peek, token_register,
}
use myexpos.Xsm.Machine.Keeps.{
  Keeps, Closed, modify-Keeps, exception-Keeps, store_integer-Keeps, keeps_rules, returns,
}

module _ {P : Machine → Type 0} (closed : Closed P) where
  -- The parts of the state that hold no words.
  exception_set_ma-Keeps : (a : ℤ) → Keeps P (exception_set_ma a)
  exception_set_ma-Keeps a = modify-Keeps closed _ (λ s. ground arith)

  exception_set_epn-Keeps : (p : ℤ) → Keeps P (exception_set_epn p)
  exception_set_epn-Keeps p = modify-Keeps closed _ (λ s. ground arith)

  pub buffer-Keeps : (b : Bytes) → Keeps P (modify (λ s. record s { buffer = b }))
  buffer-Keeps b = modify-Keeps closed _ (λ s. ground arith)

  pub lookahead-Keeps : (t : Option Token) → Keeps P (modify (λ s. record s { lookahead = t }))
  lookahead-Keeps t = modify-Keeps closed _ (λ s. ground arith)

  check_register-Keeps : (name : Bytes) (c : ℕ) (m : Mode) → Keeps P (check_register name c m)
  unfolding check_register
  check_register-Keeps name c kernel = search (keeps_rules, exception-Keeps closed)
  check_register-Keeps name c user = search (keeps_rules, exception-Keeps closed)

  find_register-Keeps : (name : Bytes) (o : Option ℕ) → Keeps P (find_register name o)
  unfolding find_register
  find_register-Keeps name none = exception-Keeps closed _ _
  find_register-Keeps name (some c) = search (keeps_rules, check_register-Keeps)

  pub machine_get_register-Keeps : (name : Bytes) → Keeps P (machine_get_register name)
  unfolding machine_get_register
  machine_get_register-Keeps name = find_register-Keeps name _

  advance_ip-Keeps : Keeps P (modify advance_ip)
  unfolding modify
  advance_ip-Keeps = record { at = λ s h. returns (closed.put_integer _ _ s h) }

  translation_failure-Keeps : (a r : ℤ) → Keeps P (translation_failure a r)
  unfolding translation_failure
  translation_failure-Keeps a r =
      search (keeps_rules, exception-Keeps closed, exception_set_ma-Keeps, exception_set_epn-Keeps)

  check_translation-Keeps : (a : ℤ) (f : Fetch) (o : Option ℤ) → Keeps P (check_translation a f o)
  unfolding check_translation
  check_translation-Keeps a f none = search keeps_rules
  check_translation-Keeps a f (some r) =
      search (keeps_rules, advance_ip-Keeps, translation_failure-Keeps)

  pub machine_translate_address-Keeps :
      (a : ℤ) (w : Bool) (f : Fetch) (m : Mode) → Keeps P (machine_translate_address a w f m)
  unfolding machine_translate_address
  machine_translate_address-Keeps a w f kernel = search keeps_rules
  machine_translate_address-Keeps a w f user = search (keeps_rules, check_translation-Keeps)

  check_word-Keeps : (a : ℤ) (o : Option ℕ) → Keeps P (check_word a o)
  unfolding check_word
  check_word-Keeps a none = search (keeps_rules, exception-Keeps closed, exception_set_ma-Keeps)
  check_word-Keeps a (some i) = search keeps_rules

  pub machine_memory_get_word-Keeps : (a : ℤ) → Keeps P (machine_memory_get_word a)
  unfolding machine_memory_get_word
  machine_memory_get_word-Keeps a = check_word-Keeps a _

  serve_words-Keeps : (a : ℤ) (l : Loc) → Keeps P (serve_words a l)
  unfolding serve_words
  serve_words-Keeps a (in_mem i) =
      search (keeps_rules, exception-Keeps closed, store_integer-Keeps closed) depth 12
  serve_words-Keeps a _ = search keeps_rules

  machine_serve_instruction-Keeps : Keeps P machine_serve_instruction
  unfolding machine_serve_instruction
  machine_serve_instruction-Keeps =
      search
        (
          keeps_rules, machine_translate_address-Keeps, machine_memory_get_word-Keeps,
          serve_words-Keeps,
        )
        depth 12

  closed_token-Keeps : (x : Scan) → Keeps P (closed_token x)
  unfolding closed_token
  closed_token-Keeps (found (t, r)) = search (keeps_rules, buffer-Keeps)
  closed_token-Keeps _ = search keeps_rules

  refilled_token-Keeps : (x : Scan) → Keeps P (refilled_token x)
  unfolding refilled_token
  refilled_token-Keeps (found (t, r)) = search (keeps_rules, buffer-Keeps)
  refilled_token-Keeps (open_string front) =
      search (keeps_rules, machine_serve_instruction-Keeps, closed_token-Keeps)
  refilled_token-Keeps exhausted = search keeps_rules

  buffered_token-Keeps : (x : Scan) → Keeps P (buffered_token x)
  unfolding buffered_token
  buffered_token-Keeps (found (t, r)) = search (keeps_rules, buffer-Keeps)
  buffered_token-Keeps (open_string front) =
      search (keeps_rules, machine_serve_instruction-Keeps, closed_token-Keeps)
  buffered_token-Keeps exhausted =
      search (keeps_rules, machine_serve_instruction-Keeps, refilled_token-Keeps)

  yylex-Keeps : Keeps P yylex
  unfolding yylex
  yylex-Keeps = search (keeps_rules, buffered_token-Keeps)

  take_lookahead-Keeps : (o : Option Token) → Keeps P (take_lookahead o)
  unfolding take_lookahead
  take_lookahead-Keeps none = yylex-Keeps
  take_lookahead-Keeps (some t) = search (keeps_rules, lookahead-Keeps)

  pub tokenize_next_token-Keeps : Keeps P tokenize_next_token
  unfolding tokenize_next_token
  tokenize_next_token-Keeps = search (keeps_rules, take_lookahead-Keeps)

  peek_lookahead-Keeps : (o : Option Token) → Keeps P (peek_lookahead o)
  unfolding peek_lookahead
  peek_lookahead-Keeps none = search (keeps_rules, yylex-Keeps, lookahead-Keeps)
  peek_lookahead-Keeps (some t) = search keeps_rules

  pub tokenize_peek-Keeps : Keeps P tokenize_peek
  unfolding tokenize_peek
  tokenize_peek-Keeps = search (keeps_rules, peek_lookahead-Keeps)

  pub token_register-Keeps : (t : Token) → Keeps P (token_register t)
  unfolding token_register
  token_register-Keeps (register name) = machine_get_register-Keeps name
  token_register-Keeps (string name) = machine_get_register-Keeps name
  token_register-Keeps (instruction name) = machine_get_register-Keeps name
  token_register-Keeps _ = search keeps_rules
