-- ===== src/Xsm/Machine/Open.antt =====
-- One name for all that a run of the machine computes with: a test unfolds `machine`.
use myexpos.Prelude.{ℕ}
use myexpos.Prelude.Int.{◌+ℤ◌, ◌-ℤ◌, ◌*ℤ◌, div_ℤ, mod_ℤ, wrap32}
use myexpos.Libc.{
  cstr, leading, skip_space, signed_value, atoi, digits, format_int, strcmp, same_nocase,
}
use myexpos.Xsm.Word.{
  word_get_unix_type, word_get_integer, word_get_string, word_store_integer, word_store_string,
  word_copy, word_encrypt,
}
use myexpos.Xsm.Registers.{registers_get_register_code, registers_umode, index_nocase}
use myexpos.Xsm.Memory.{
  memory_get_word, memory_addr_page, memory_translate_page, memory_translate_address,
}
use myexpos.Xsm.Lexer.{scan, scan_close}
use myexpos.Xsm.State.{
  Machine, update, peek, poke, ◌>>=◌, get_integer, store_integer, store_string, copy,
}
use myexpos.Xsm.Machine.Base.{
  machine_register_exception, check_register, find_register, machine_get_register,
  translation_failure, check_translation, machine_translate_address, check_word,
  machine_memory_get_word,
}
use myexpos.Xsm.Machine.Tokens.{
  blank_out, trim_buffer, serve_words, machine_serve_instruction, closed_token, refilled_token,
  buffered_token, yylex, take_lookahead, tokenize_next_token, peek_lookahead, tokenize_peek,
  token_register,
}
use myexpos.Xsm.Machine.Stack.{
  machine_stack_pointer, machine_push_do, machine_pop_do, stack_operation, stack_operand,
  machine_execute_stack, machine_execute_call_do, call_target, machine_execute_call,
  machine_execute_ret, push_registers, machine_execute_backup, pop_registers,
  machine_execute_restore, machine_execute_iret,
}
use myexpos.Xsm.Machine.Data.{
  registers_get_integer, address_operand, machine_get_address_int, machine_get_address, mov_left,
  expect_comma, mov_right, machine_execute_mov, arith_result, arith_left, arith_right,
  machine_execute_arith, machine_execute_unary, logical_test, logical_result,
  machine_execute_logical, word_test, jump_operands, jump_to, machine_execute_jump,
  machine_execute_encrypt,
}
use myexpos.Xsm.Machine.Devices.{
  memory_get_page, disk_get_block, copy_page, disk_read_block, disk_write_page,
  machine_execute_load_do, machine_execute_store_do, machine_schedule_disk, machine_read_disk_arg,
  disk_transfer, machine_execute_disk, machine_execute_print_do, machine_execute_print,
  machine_schedule_in, read_line, input_line, machine_execute_in_do, machine_execute_ini,
}
use myexpos.Xsm.Machine.Opcode.{machine_get_opcode, machine_instr_req_privilege}
use myexpos.Xsm.Machine.Execute.{
  machine_interrupt_address, enter_handler, interrupt_from, machine_execute_interrupt_do,
  interrupt_number, machine_execute_interrupt, machine_execute_brkp, machine_execute_instruction,
}
use myexpos.Xsm.Machine.Cycle.{
  tick, transfer, disk_done, console_transfer, console_done, timer_done, machine_post_execute,
  exception_registers, handle_in, machine_handle_exception, known_opcode, instruction_opcode,
  check_privilege, post_execute_in, run_opcode, machine_cycle, Outcome, machine_round, machine_run,
  machine_init,
}

unfoldable pub machine : ℕ → Machine → Outcome
unfolding ◌+ℤ◌ ◌-ℤ◌ ◌*ℤ◌ div_ℤ mod_ℤ wrap32 cstr leading skip_space signed_value atoi format_int
    strcmp same_nocase word_get_unix_type word_get_integer word_get_string word_store_integer
    word_store_string word_copy word_encrypt registers_get_register_code registers_umode
    index_nocase memory_get_word memory_addr_page memory_translate_page memory_translate_address
    scan scan_close update peek poke ◌>>=◌ get_integer store_integer store_string copy
    machine_register_exception check_register find_register machine_get_register translation_failure
    check_translation machine_translate_address check_word machine_memory_get_word blank_out
    trim_buffer serve_words machine_serve_instruction closed_token refilled_token buffered_token
    yylex take_lookahead tokenize_next_token peek_lookahead tokenize_peek token_register
    machine_stack_pointer machine_push_do machine_pop_do stack_operation stack_operand
    machine_execute_stack machine_execute_call_do call_target machine_execute_call
    machine_execute_ret push_registers machine_execute_backup pop_registers machine_execute_restore
    machine_execute_iret registers_get_integer address_operand machine_get_address_int
    machine_get_address mov_left expect_comma mov_right machine_execute_mov arith_result arith_left
    arith_right machine_execute_arith machine_execute_unary logical_test logical_result
    machine_execute_logical word_test jump_operands jump_to machine_execute_jump
    machine_execute_encrypt memory_get_page disk_get_block copy_page disk_read_block disk_write_page
    machine_execute_load_do machine_execute_store_do machine_schedule_disk machine_read_disk_arg
    disk_transfer machine_execute_disk machine_execute_print_do machine_execute_print
    machine_schedule_in read_line input_line machine_execute_in_do machine_execute_ini
    machine_get_opcode machine_instr_req_privilege machine_interrupt_address enter_handler
    interrupt_from machine_execute_interrupt_do interrupt_number machine_execute_interrupt
    machine_execute_brkp machine_execute_instruction tick transfer disk_done console_transfer
    console_done timer_done machine_post_execute exception_registers handle_in
    machine_handle_exception known_opcode instruction_opcode check_privilege post_execute_in
    run_opcode machine_cycle machine_round machine_run machine_init digits
machine rounds s = machine_run rounds s
