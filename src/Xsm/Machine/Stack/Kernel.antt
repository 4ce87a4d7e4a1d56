-- ===== src/Xsm/Machine/Stack/Kernel.antt =====
-- One PUSH and one POP in kernel mode, where addresses are physical.
use myexpos.Prelude.{ℕ, suc, ◌<◌, ◌≡◌, ◌≢◌, refl, true, false, some, arith, lt→ltb}
use myexpos.Prelude.Int.{pos, add32, sub32, wrap32, ◌+ℤ◌, ◌-ℤ◌}
use myexpos.Xsm.Word.{Word, word_get_integer, word_store_integer, word_copy}
use myexpos.Xsm.Word.Numbers.{word_get_integer-word_store_integer}
use myexpos.Xsm.Registers.{sp}
use myexpos.Xsm.Memory.{memory_size, memory_get_word}
use myexpos.Xsm.State.{
  ◌>>=◌, get_integer, store_integer, copy, Machine, ok, kernel, Loc, in_reg, in_mem, peek, poke,
  update,
}
use myexpos.Xsm.Machine.Base.{machine_translate_address, machine_memory_get_word, check_word}
use myexpos.Xsm.Machine.Stack.{machine_stack_pointer, machine_push_do, machine_pop_do}

-- Kernel mode, with the stack pointer at `top`.
pub record AtTop (s : Machine) (top : ℕ) : Type 0 where
  pub mode : s.cpu.mode ≡ kernel
  pub points : word_get_integer (s.regs sp) ≡ pos top

-- The state with a new stack pointer.
abbrev pub with_sp : Machine → ℕ → Machine
with_sp s top = poke (in_reg sp) (word_store_integer (s.regs sp) (pos top)) s

abbrev pub pushed : Machine → ℕ → Loc → Machine
pushed s top l =
    let t = with_sp s (suc top) in
    let u = record t { cpu = record (s.cpu) { mem_left = pos (suc top) } } in
    poke (in_mem (suc top)) (peek l u) u

abbrev pub popped : Machine → ℕ → Loc → Machine
popped s top l =
    let t = poke l (s.mem (suc top)) s in
    poke (in_reg sp) (word_store_integer (t.regs sp) (pos top)) t

pub add32_one : (n : ℕ) → n < memory_size → add32 (pos n) (pos 1) ≡ pos (suc n)
unfolding ◌+ℤ◌ wrap32
add32_one n h = ground arith

pub sub32_one : (n : ℕ) → n < memory_size → sub32 (pos (suc n)) (pos 1) ≡ pos n
unfolding ◌-ℤ◌ wrap32
sub32_one n h = ground arith

memory_get_word_inside : (n : ℕ) → n < memory_size → memory_get_word (pos n) ≡ some n
unfolding memory_get_word
memory_get_word_inside n h = rw (lt→ltb n memory_size h)

stack_word :
    (s : Machine) (top : ℕ)
    → s.cpu.mode ≡ kernel
    → top < memory_size
    → machine_stack_pointer true (with_sp s top)
      ≡ ok (in_mem top) (record (with_sp s top) { cpu = record (s.cpu) { mem_left = pos top } })
unfolding ◌>>=◌ get_integer machine_stack_pointer machine_translate_address machine_memory_get_word
    check_word peek poke update
stack_word s top m h = rw (
  word_get_integer-word_store_integer (s.regs sp) (pos top) (omega arith),
  m,
  memory_get_word_inside top h,
)

pub push-ok :
    (s : Machine) (top : ℕ) (l : Loc)
    → AtTop s top
    → suc top < memory_size
    → machine_push_do l s ≡ ok tt (pushed s top l)
unfolding ◌>>=◌ get_integer store_integer copy machine_push_do peek word_copy
push-ok s top l at h = rw (at.points, add32_one top (omega arith), stack_word s (suc top) at.mode h)

read_word :
    (s : Machine) (top : ℕ)
    → AtTop s top
    → top < memory_size
    → machine_stack_pointer false s ≡ ok (in_mem top) s
unfolding ◌>>=◌ get_integer machine_stack_pointer machine_translate_address machine_memory_get_word
    check_word peek
read_word s top at h = rw (at.points, at.mode, memory_get_word_inside top h)

pub pop-ok :
    (s : Machine) (top : ℕ) (l : Loc)
    → AtTop s (suc top)
    → suc top < memory_size
    → machine_pop_do l s ≡ ok tt (popped s top l)
unfolding ◌>>=◌ get_integer store_integer copy machine_pop_do peek word_copy
pop-ok s top l at h = rw (read_word s (suc top) at h, at.points, sub32_one top (omega arith))

-- What a PUSH of a register other than SP changes: SP goes up by one, and the word there is the
-- register's.
pub record AfterPush (s t : Machine) (top : ℕ) (w : Word) : Type 0 where
  pub at_top : AtTop t (suc top)
  pub regs : (r : ℕ) → r ≢ sp → t.regs r ≡ s.regs r
  pub word : t.mem (suc top) ≡ w
  pub others : (a : ℕ) → a ≢ suc top → t.mem a ≡ s.mem a

pub pushed-AfterPush :
    (s : Machine) (top r : ℕ)
    → AtTop s top
    → suc top < memory_size
    → r ≢ sp
    → AfterPush s (pushed s top (in_reg r)) top (s.regs r)
unfolding peek poke update
pushed-AfterPush s top r at h ne = record {
  at_top = record {
    mode = at.mode;
    points = word_get_integer-word_store_integer (s.regs sp) (pos (suc top)) (omega arith);
  };
  regs = λ q d. ground arith;
  word = ground arith;
  others = λ a d. ground arith;
}

-- What a POP into a register other than SP changes: the register has the word that SP pointed at,
-- and SP goes down by one.
pub record AfterPop (s t : Machine) (top r : ℕ) : Type 0 where
  pub at_top : AtTop t top
  pub word : t.regs r ≡ s.mem (suc top)
  pub others : (q : ℕ) → q ≢ sp → q ≢ r → t.regs q ≡ s.regs q
  pub mem : (a : ℕ) → t.mem a ≡ s.mem a

pub popped-AfterPop :
    (s : Machine) (top r : ℕ)
    → AtTop s (suc top)
    → suc top < memory_size
    → r ≢ sp
    → AfterPop s (popped s top (in_reg r)) top r
unfolding peek poke update
popped-AfterPop s top r at h ne = record {
  at_top = record {
    mode = at.mode;
    points = word_get_integer-word_store_integer _ (pos top) (omega arith);
  };
  word = ground arith;
  others = λ q d e. ground arith;
  mem = λ a. refl;
}
