-- ===== src/Xsm/Machine/Keeps/Words.antt =====
-- Every word of the machine stays 16 bytes long.
use myexpos.Prelude.{◌≡◌, ℕ, ◌+◌, length, ◌==◌, Bool-cases, inl, inr, ◌&&◌, ltb, leb}
use myexpos.Xsm.Word.{Word, word_size, word_copy}
use myexpos.Xsm.Word.Numbers.{length-word_store_integer}
use myexpos.Xsm.Word.Texts.{length-word_store_string, length-word_encrypt}
use myexpos.Xsm.Memory.{page_size}
use myexpos.Xsm.State.{Machine, Loc, in_reg, in_mem, in_console, in_target, peek, poke, update}
use myexpos.Xsm.Machine.Devices.{copy_page}
use myexpos.Xsm.Machine.Cycle.{machine_run}
use myexpos.Xsm.Machine.Keeps.{SameWords, Closed}
use myexpos.Xsm.Machine.Keeps.Execute.{ClosedRounds}
use myexpos.Xsm.Machine.Keeps.Rounds.{Settles, machine_run-Settles}

abbrev pub IsWord : Word → Type 0
IsWord w = length w ≡ word_size

-- The arrays of 16 characters that the state consists of.
pub record WordsOk (s : Machine) : Type 0 where
  pub regs : (r : ℕ) → IsWord (s.regs r)
  pub mem : (a : ℕ) → IsWord (s.mem a)
  pub disk : (a : ℕ) → IsWord (s.disk a)
  pub console : IsWord s.cpu.console_op.word
  pub target : IsWord s.target

peek-IsWord : (l : Loc) (s : Machine) → WordsOk s → IsWord (peek l s)
unfolding peek
peek-IsWord (in_reg r) s h = h.regs r
peek-IsWord (in_mem a) s h = h.mem a
peek-IsWord in_console s h = h.console
peek-IsWord in_target s h = h.target

update-IsWord :
    (f : ℕ → Word) (i : ℕ) (w : Word)
    → ((j : ℕ) → IsWord (f j))
    → IsWord w
    → (j : ℕ) → IsWord (update f i w j)
unfolding update
update-IsWord f i w hf hw j = elim (Bool-cases (j == i)) [ inl e ↦ rw e hw | inr e ↦ rw e (hf j) ]

poke-WordsOk : (l : Loc) (w : Word) (s : Machine) → IsWord w → WordsOk s → WordsOk (poke l w s)
unfolding poke
poke-WordsOk (in_reg r) w s hw h = record {
  regs = update-IsWord s.regs r w h.regs hw;
  mem = h.mem;
  disk = h.disk;
  console = h.console;
  target = h.target;
}
poke-WordsOk (in_mem a) w s hw h = record {
  regs = h.regs;
  mem = update-IsWord s.mem a w h.mem hw;
  disk = h.disk;
  console = h.console;
  target = h.target;
}
poke-WordsOk in_console w s hw h = record {
  regs = h.regs;
  mem = h.mem;
  disk = h.disk;
  console = hw;
  target = h.target;
}
poke-WordsOk in_target w s hw h = record {
  regs = h.regs;
  mem = h.mem;
  disk = h.disk;
  console = h.console;
  target = hw;
}

frame-WordsOk : (s t : Machine) → SameWords s t → WordsOk s → WordsOk t
frame-WordsOk s t same h = record {
  regs = rw same.regs h.regs;
  mem = rw same.mem h.mem;
  disk = rw same.disk h.disk;
  console = rw same.console h.console;
  target = rw same.target h.target;
}

WordsOk-Closed : Closed WordsOk
unfolding word_copy
WordsOk-Closed = record {
  frame = frame-WordsOk;
  put_integer =
      λ l n s h. poke-WordsOk l _ s (length-word_store_integer (peek l s) n (peek-IsWord l s h)) h;
  put_string = λ l str s h. poke-WordsOk l _ s (length-word_store_string (peek l s) str) h;
  put_copy = λ d r s h. poke-WordsOk d (peek r s) s (peek-IsWord r s h) h;
  put_encrypted =
      λ l s h. poke-WordsOk l _ s (length-word_encrypt (peek l s) (peek-IsWord l s h)) h;
}

copy_page-IsWord :
    (to : ℕ → Word) (p : ℕ) (from : ℕ → Word) (b : ℕ)
    → ((a : ℕ) → IsWord (to a))
    → ((a : ℕ) → IsWord (from a))
    → (a : ℕ) → IsWord (copy_page to p from b a)
unfolding copy_page
copy_page-IsWord to p from b ht hf a = elim (Bool-cases (leb p a && ltb a (p + page_size))) [
  | inl e ↦ rw e (hf _)
  | inr e ↦ rw e (ht a)
]

WordsOk-ClosedRounds : ClosedRounds WordsOk
WordsOk-ClosedRounds = record {
  words = WordsOk-Closed;
  put_page = λ p b s h. record {
    regs = h.regs;
    mem = copy_page-IsWord s.mem p s.disk b h.mem h.disk;
    disk = h.disk;
    console = h.console;
    target = h.target;
  };
  put_block = λ b p s h. record {
    regs = h.regs;
    mem = h.mem;
    disk = copy_page-IsWord s.disk b s.mem p h.disk h.mem;
    console = h.console;
    target = h.target;
  };
  put_mode = λ m s h. record {
    regs = h.regs;
    mem = h.mem;
    disk = h.disk;
    console = h.console;
    target = h.target;
  };
}

-- A machine all of whose words (registers, memory, disk copy, and the words of the console and of
-- IRET) are 16 bytes long has such words after any number of rounds that it runs or halts in,
-- exceptions, interrupts and device transfers included: no store makes a word longer or shorter.
pub machine_run-WordsOk :
    (rounds : ℕ) (s : Machine) → WordsOk s → Settles WordsOk (machine_run rounds s)
machine_run-WordsOk rounds s h = machine_run-Settles WordsOk-ClosedRounds rounds s h
