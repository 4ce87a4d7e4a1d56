-- ===== src/Xsm/Machine/Devices.antt =====
-- The disk and the console: xsm/disk.c, and LOADI, LOAD, STORE, IN, INI and OUT of xsm/machine.c.
use myexpos.Prelude.{
  ℕ, ◌+◌, ◌-◌, ◌*◌, Bool, true, false, ◌&&◌, ◌||◌, Option, none, some, [], ◌∷◌, Bytes, ltb, leb,
  ◌==◌, if◌then◌else◌, zero, suc,
}
use myexpos.Prelude.Int.{ℤ, pos, negsuc, ltb_ℤ, leb_ℤ, mul32}
use myexpos.Xsm.Word.{Word, UnixType, word_get_unix_type, word_get_integer, word_get_string}
use myexpos.Xsm.Registers.{p0, p1}
use myexpos.Xsm.Memory.{page_size, num_pages, memory_get_word}
use myexpos.Xsm.State.{
  M, ◌>>=◌, ◌>>◌, pure, gets, modify, undefined, Loc, in_reg, get_integer, store_string, Token,
  register, number, illegal_instruction, DiskOp, load, store, read, idle, busy, Device, Line, text,
  int,
}
use myexpos.Xsm.Machine.Base.{machine_register_exception, machine_get_register}
use myexpos.Xsm.Machine.Tokens.{tokenize_next_token, tokenize_skip_token}

abbrev pub disk_blocks : ℕ
disk_blocks = 512

-- memory_get_page: the address of a page's first word.
unfoldable pub memory_get_page : ℤ → Option ℕ
memory_get_page page = memory_get_word (mul32 page (pos page_size))

-- disk_get_block: the address of a block's first word, which has to lie in the memory copy.
unfoldable pub disk_get_block : ℤ → Option ℕ
disk_get_block (pos b) = if ltb b disk_blocks then some (b * page_size) else none
disk_get_block (negsuc b) = none

-- memcpy of a page of words, from `src` in one table to `dest` in another.
unfoldable pub copy_page : (ℕ → Word) → ℕ → (ℕ → Word) → ℕ → ℕ → Word
copy_page to dest from src a =
    if leb dest a && ltb a (dest + page_size) then from (src + (a - dest)) else to a

unfoldable pub disk_read_block : Option ℕ → Option ℕ → M (Unit {0})
disk_read_block (some p) (some b) = modify (λ s. record s { mem = copy_page s.mem p s.disk b })
disk_read_block _ _ = undefined

unfoldable pub disk_write_page : Option ℕ → Option ℕ → M (Unit {0})
disk_write_page (some p) (some b) = modify (λ s. record s { disk = copy_page s.disk b s.mem p })
disk_write_page _ _ = undefined

unfoldable pub machine_execute_load_do : ℤ → ℤ → M (Unit {0})
machine_execute_load_do page_num block_num =
    disk_read_block (memory_get_page page_num) (disk_get_block block_num)

unfoldable pub machine_execute_store_do : ℤ → ℤ → M (Unit {0})
machine_execute_store_do page_num block_num =
    disk_write_page (memory_get_page page_num) (disk_get_block block_num)

abbrev pub is_busy : Device → Bool
is_busy idle = false
is_busy busy = true

-- A request while the disk is busy is ignored.
unfoldable pub machine_schedule_disk : ℤ → ℤ → ℤ → DiskOp → M (Unit {0})
machine_schedule_disk page_num block_num firetime operation = modify (λ s.
    if is_busy s.cpu.disk_state then s else record s {
      cpu = record (s.cpu) {
        disk_state = busy;
        disk_wait = firetime;
        disk_op = record { src_block = block_num; dest_page = page_num; operation = operation };
      };
    })

unfoldable pub machine_read_disk_arg : Token → M ℤ
machine_read_disk_arg (number n) = pure n
machine_read_disk_arg (register name) = do r ← machine_get_register name; get_integer r
machine_read_disk_arg _ =
    machine_register_exception "Wrong arguments for disk instruction" illegal_instruction

unfoldable pub disk_transfer : DiskOp → Bool → ℤ → ℤ → M (Unit {0})
disk_transfer load true page_num block_num = machine_execute_load_do page_num block_num
disk_transfer store true page_num block_num = machine_execute_store_do page_num block_num
disk_transfer operation false page_num block_num = do
  firetime ← gets (λ s. s.options.disk)
  machine_schedule_disk page_num block_num firetime operation

unfoldable pub machine_execute_disk : DiskOp → Bool → M (Unit {0})
machine_execute_disk operation immediate = do
  token ← tokenize_next_token
  page_num ← machine_read_disk_arg token
  if leb_ℤ page_num (pos 0) || leb_ℤ (pos num_pages) page_num
      then machine_register_exception "Invalid page number for disk instruction" illegal_instruction
      else (do
        tokenize_skip_token
        token ← tokenize_next_token
        block_num ← machine_read_disk_arg token
        if ltb_ℤ block_num (pos 0) || leb_ℤ (pos disk_blocks) block_num
            then machine_register_exception "Invalid block number for disk instruction"
                illegal_instruction
            else disk_transfer operation immediate page_num block_num)

abbrev line_of : UnixType → Word → Line
line_of UnixType.string w = text (word_get_string w)
line_of UnixType.integer w = int (word_get_integer w)

unfoldable pub machine_execute_print_do : Word → M (Unit {0})
machine_execute_print_do w =
    modify (λ s. record s { stdout = line_of (word_get_unix_type w) w ∷ s.stdout })

unfoldable pub machine_execute_print : M (Unit {0})
machine_execute_print = do w ← gets (λ s. s.regs p1); machine_execute_print_do w

unfoldable pub machine_schedule_in : M (Unit {0})
machine_schedule_in = modify (λ s. if is_busy s.cpu.console_state then s else record s {
  cpu = record (s.cpu) {
    console_op = record (s.cpu.console_op) { operation = read };
    console_state = busy;
    console_wait = s.options.console;
  };
})

-- fgets: at most `n` characters, up to a newline, which the program drops; and the rest of the input.
unfoldable pub read_line : ℕ → Bytes → Bytes × Bytes
read_line zero input = ([], input)
read_line (suc n) [] = ([], [])
read_line (suc n) (c ∷ input) =
    let (line, rest) = read_line n input in if c == 10 then ([], input) else (c ∷ line, rest)

-- The line that is read. At the end of the input fgets leaves the buffer unset.
unfoldable pub input_line : Bytes → M Bytes
input_line [] = undefined
input_line (c ∷ input) = do
  let (line, rest) = read_line 15 (c ∷ input)
  modify (λ s. record s { stdin = rest })
  pure line

unfoldable pub machine_execute_in_do : Loc → M (Unit {0})
machine_execute_in_do l = do
  input ← gets (λ s. s.stdin)
  line ← input_line input
  store_string l line

unfoldable pub machine_execute_ini : M (Unit {0})
machine_execute_ini = do
  debug ← gets (λ s. s.options.debug)
  if debug then machine_execute_in_do (in_reg p0) else pure tt
