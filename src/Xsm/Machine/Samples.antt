-- ===== src/Xsm/Machine/Samples.antt =====
-- Machines to run the tests on.
use myexpos.Prelude.{
  false, none, List, [], ◌++◌, Bytes, codes, take, replicate, get_or, if◌then◌else◌, ◌==◌, ◌∷◌,
}
use myexpos.Prelude.Int.{pos, negsuc}
use myexpos.Xsm.Word.{Word}
use myexpos.Xsm.Registers.{ptlr}
use myexpos.Xsm.State.{Machine, user, kernel, page_fault, idle, load, print}

-- A word that holds a text of at most 16 characters.
abbrev pub word : Bytes → Word
word s = take 16 (s ++ replicate 16 0)

-- A machine in kernel mode whose memory begins with `program`, and whose other words are zero bytes.
abbrev pub sample : List Bytes → Machine
sample program = record {
  regs = λ r. word (codes "0");
  mem = λ a. word (get_or program a []);
  disk = λ a. word [];
  cpu = record {
    timer = pos 0;
    mode = kernel;
    disk_state = idle;
    disk_wait = pos 0;
    console_state = idle;
    console_wait = pos 0;
    mem_left = negsuc 0;
    mem_right = pos 0;
    disk_op = record { src_block = pos 0; dest_page = pos 0; operation = load };
    console_op = record { word = word []; operation = print };
  };
  options = record { timer = pos 20; debug = false; disk = pos 20; console = pos 20 };
  exception = record { message = ""; type = page_fault; mode = user; ma = pos 0; epn = pos 0 };
  buffer = [];
  lookahead = none;
  stdin = [];
  stdout = [];
  target = word [];
  debug_active = false;
}

-- A machine in user mode whose page table, at address 0, has one page, in frame 3.
abbrev pub program : Machine
program = record (sample (codes "3" ∷ codes "111" ∷ [])) {
  regs = λ r. if r == ptlr then word (codes "1") else word (codes "0");
  cpu = record ((sample []).cpu) { mode = user };
}
