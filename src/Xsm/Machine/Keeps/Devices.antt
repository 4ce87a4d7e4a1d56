-- ===== src/Xsm/Machine/Keeps/Devices.antt =====
-- The instructions of the disk and the console keep what their writes keep.
use myexpos.Prelude.{arith, Bytes, Bool, [], ◌∷◌}
use myexpos.Prelude.Int.{ℤ}
use myexpos.Xsm.Word.{Word}
use myexpos.Xsm.State.{Machine, modify, Loc, Token, register, number, DiskOp}
use myexpos.Xsm.Machine.Devices.{
  machine_execute_print_do, machine_execute_print, machine_schedule_in, machine_schedule_disk,
  input_line, machine_execute_in_do, machine_execute_ini, machine_read_disk_arg,
  machine_execute_disk, disk_transfer,
}
use myexpos.Xsm.Machine.Keeps.{
  Keeps, Closed, modify-Keeps, exception-Keeps, store_string-Keeps, keeps_rules,
}
use myexpos.Xsm.Machine.Keeps.Tokens.{machine_get_register-Keeps, tokenize_next_token-Keeps}

module _ {P : Machine → Type 0} (closed : Closed P) where
  pub machine_execute_print_do-Keeps : (w : Word) → Keeps P (machine_execute_print_do w)
  unfolding machine_execute_print_do
  machine_execute_print_do-Keeps w = modify-Keeps closed _ (λ s. ground arith)

  pub machine_execute_print-Keeps : Keeps P machine_execute_print
  unfolding machine_execute_print
  machine_execute_print-Keeps = search (keeps_rules, machine_execute_print_do-Keeps)

  pub machine_schedule_in-Keeps : Keeps P machine_schedule_in
  unfolding machine_schedule_in
  machine_schedule_in-Keeps = modify-Keeps closed _ (λ s. ground arith)

  pub machine_schedule_disk-Keeps :
      (a b c : ℤ) (op : DiskOp) → Keeps P (machine_schedule_disk a b c op)
  unfolding machine_schedule_disk
  machine_schedule_disk-Keeps a b c op = modify-Keeps closed _ (λ s. ground arith)

  machine_read_disk_arg-Keeps : (t : Token) → Keeps P (machine_read_disk_arg t)
  unfolding machine_read_disk_arg
  machine_read_disk_arg-Keeps (number n) = search keeps_rules
  machine_read_disk_arg-Keeps (register name) =
      search (keeps_rules, machine_get_register-Keeps closed)
  machine_read_disk_arg-Keeps _ = exception-Keeps closed _ _

  stdin-Keeps : (b : Bytes) → Keeps P (modify (λ s. record s { stdin = b }))
  stdin-Keeps b = modify-Keeps closed _ (λ s. ground arith)

  input_line-Keeps : (b : Bytes) → Keeps P (input_line b)
  unfolding input_line
  input_line-Keeps [] = search keeps_rules
  input_line-Keeps (c ∷ b) = search (keeps_rules, stdin-Keeps)

  pub machine_execute_in_do-Keeps : (l : Loc) → Keeps P (machine_execute_in_do l)
  unfolding machine_execute_in_do
  machine_execute_in_do-Keeps l = search (keeps_rules, input_line-Keeps, store_string-Keeps closed)

  pub machine_execute_ini-Keeps : Keeps P machine_execute_ini
  unfolding machine_execute_ini
  machine_execute_ini-Keeps = search (keeps_rules, machine_execute_in_do-Keeps)

  -- LOADI, LOAD and STORE keep what their transfers keep.
  pub machine_execute_disk-Keeps :
      (op : DiskOp) (now : Bool)
      → ((a b : ℤ) → Keeps P (disk_transfer op now a b))
      → Keeps P (machine_execute_disk op now)
  unfolding machine_execute_disk
  machine_execute_disk-Keeps op now h =
      search
        (
          keeps_rules,
          h,
          tokenize_next_token-Keeps,
          machine_read_disk_arg-Keeps,
          exception-Keeps closed,
        )
        depth 15
