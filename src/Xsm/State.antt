-- ===== src/Xsm/State.antt =====
-- The state of the simulator: the registers, the memory, the memory copy of the disk, `_thecpu`, the
-- exception record, the lexer's buffer and lookahead, and the standard streams (xsm/machine.h,
-- xsm/exception.h, xsm/tokenize.c); the outcomes of a C function that may leave by longjmp; and the
-- words that a pointer can point at.
use Prim.Native.String.{String}
use myexpos.Prelude.{ℕ, Bool, Option, List, Bytes, ◌==◌, if◌then◌else◌}
use myexpos.Prelude.Int.{ℤ, pos}
use myexpos.Xsm.Word.{Word, word_get_integer, word_store_integer, word_store_string, word_copy}

pub data Mode : Type 0 where
  user kernel : Mode

-- XSM_DISK_IDLE and XSM_DISK_BUSY, and the same for the console.
pub data Device : Type 0 where
  idle busy : Device

pub data DiskOp : Type 0 where
  load store : DiskOp

pub data ConsoleOp : Type 0 where
  print read : ConsoleOp

pub record DiskOperation : Type 0 where
  pub src_block : ℤ
  pub dest_page : ℤ
  pub operation : DiskOp

pub record ConsoleOperation : Type 0 where
  pub word : Word
  pub operation : ConsoleOp

-- `_thecpu`, less the registers (never used there) and the jump buffer.
pub record Cpu : Type 0 where
  pub timer : ℤ
  pub mode : Mode
  pub disk_state : Device
  pub disk_wait : ℤ
  pub console_state : Device
  pub console_wait : ℤ
  pub mem_left : ℤ
  pub mem_right : ℤ
  pub disk_op : DiskOperation
  pub console_op : ConsoleOperation

pub record Options : Type 0 where
  pub timer : ℤ
  pub debug : Bool
  pub disk : ℤ
  pub console : ℤ

-- EXP_PAGEFAULT, EXP_ILLINSTR, EXP_ILLMEM and EXP_ARITH.
pub data ExceptionType : Type 0 where
  page_fault illegal_instruction illegal_memory arithmetic : ExceptionType

abbrev pub exception_number : ExceptionType → ℤ
exception_number page_fault = pos 0
exception_number illegal_instruction = pos 1
exception_number illegal_memory = pos 2
exception_number arithmetic = pos 3

pub record XsmException : Type 0 where
  pub message : String
  pub type : ExceptionType
  pub mode : Mode
  pub ma : ℤ
  pub epn : ℤ

-- The tokens of parse.l, each with what its action puts into `yylval`.
pub data Token : Type 0 where
  register : Bytes → Token
  number : ℤ → Token
  string : Bytes → Token
  dref_l dref_r comma : Token
  instruction : Bytes → Token

-- A line that OUT prints.
pub data Line : Type 0 where
  text : Bytes → Line
  int : ℤ → Line

-- `buffer` is what the lexer has not read yet; `lookahead` is the token that was peeked at;
-- `target` is the local word of machine_execute_iret; `stdout` has its last line in front.
pub record Machine : Type 0 where
  pub regs : ℕ → Word
  pub mem : ℕ → Word
  pub disk : ℕ → Word
  pub cpu : Cpu
  pub options : Options
  pub exception : XsmException
  pub buffer : Bytes
  pub lookahead : Option Token
  pub stdin : Bytes
  pub stdout : List Line
  pub target : Word
  pub debug_active : Bool

-- `raised` is a longjmp to the exception point; `unspecified` is what C leaves open (a null or stale
-- pointer is followed, or an array is read past its end); `hang` is a loop that does not end.
pub data Run (A : Type 0) : Type 0 where
  ok : A → Machine → Run A
  raised : Machine → Run A
  unspecified : Run A
  hang : Run A

abbrev pub M : Type 0 → Type 0
M A = Machine → Run A

unfoldable pub pure : {A : Type 0} → A → M A
pure a s = ok a s

unfoldable pub modify : (Machine → Machine) → M (Unit {0})
modify f s = ok tt (f s)

unfoldable pub gets : {A : Type 0} → (Machine → A) → M A
gets f s = ok (f s) s

unfoldable pub undefined : {A : Type 0} → M A
undefined s = unspecified

unfoldable pub hangs : {A : Type 0} → M A
hangs s = hang

module _ {A B : Type 0} where
  abbrev pub and_then : Run A → (A → M B) → Run B
  and_then (ok a s) k = k a s
  and_then (raised s) k = raised s
  and_then unspecified k = unspecified
  and_then hang k = hang

  infixl 5 ◌>>=◌ ◌>>◌
  -- To open this opens the commands above too.
  unfoldable pub ◌>>=◌ : M A → (A → M B) → M B
  unfolding pure modify gets undefined hangs
  ◌>>=◌ m k s = and_then (m s) k

  abbrev pub ◌>>◌ : M A → M B → M B
  m >> k = m >>= λ _. k

-- What an `xsm_word *` points at.
pub data Loc : Type 0 where
  in_reg in_mem : ℕ → Loc
  in_console in_target : Loc

-- A table of words with the word at `i` replaced.
unfoldable pub update : (ℕ → Word) → ℕ → Word → ℕ → Word
update f i w j = if j == i then w else f j

abbrev pub set_cpu : Machine → Cpu → Machine
set_cpu s c = record s { cpu = c }

unfoldable pub peek : Loc → Machine → Word
peek (in_reg r) s = s.regs r
peek (in_mem a) s = s.mem a
peek in_console s = s.cpu.console_op.word
peek in_target s = s.target

unfoldable pub poke : Loc → Word → Machine → Machine
unfolding update
poke (in_reg r) w s = record s { regs = update s.regs r w }
poke (in_mem a) w s = record s { mem = update s.mem a w }
poke in_console w s = record s {
  cpu = record (s.cpu) { console_op = record (s.cpu.console_op) { word = w } };
}
poke in_target w s = record s { target = w }

-- word_get_integer, word_store_integer, word_store_string and word_copy at pointers.
unfoldable pub get_integer : Loc → M ℤ
unfolding ◌>>=◌
get_integer l = gets (λ s. word_get_integer (peek l s))

unfoldable pub store_integer : Loc → ℤ → M (Unit {0})
unfolding ◌>>=◌
store_integer l n = modify (λ s. poke l (word_store_integer (peek l s) n) s)

unfoldable pub store_string : Loc → Bytes → M (Unit {0})
unfolding ◌>>=◌
store_string l str = modify (λ s. poke l (word_store_string (peek l s) str) s)

unfoldable pub copy : Loc → Loc → M (Unit {0})
unfolding ◌>>=◌
copy dest src = modify (λ s. poke dest (word_copy (peek dest s) (peek src s)) s)
