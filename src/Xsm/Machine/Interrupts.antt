-- ===== src/Xsm/Machine/Interrupts.antt =====
-- INT, the exception handler's entry and IRET: from a program in user mode to the kernel and back.
use myexpos.Prelude.{
  ℕ, suc, ◌+◌, ◌*◌, ◌≤◌, ◌<◌, ◌≡◌, ◌≢◌, refl, Bool, true, false, some, arith, ◌==◌, lt→ltb, ap, sym,
  ◌∙◌,
}
use myexpos.Prelude.Int.{ℤ, pos, InInt, ltb_ℤ, eq_ℤ, wrap32, wrap32-InInt, ◌+ℤ◌, ◌*ℤ◌}
use myexpos.Libc.{atoi}
use myexpos.Xsm.Word.{Word, word_get_integer, word_store_integer, word_copy}
use myexpos.Xsm.Word.Numbers.{word_get_integer-word_store_integer}
use myexpos.Xsm.Registers.{sp, ip, ptbr, ptlr}
use myexpos.Xsm.Memory.{
  memory_size, memory_get_word, memory_translate_address, mem_nowrite, mem_pagefault, mem_illpage,
}
use myexpos.Xsm.State.{
  ◌>>=◌, get_integer, store_integer, copy, Machine, Mode, ok, user, kernel, in_reg, in_mem,
  in_target, peek, poke, update,
}
use myexpos.Xsm.Machine.Base.{
  machine_translate_address, check_translation, translation_failure, machine_memory_get_word,
  check_word, oper_fetch,
}
use myexpos.Xsm.Machine.Stack.{
  machine_stack_pointer, machine_pop_do, machine_execute_call_do, machine_execute_iret,
}
use myexpos.Xsm.Machine.Stack.Kernel.{with_sp, add32_one, sub32_one}
use myexpos.Xsm.Machine.Execute.{
  machine_execute_interrupt_do, interrupt_from, enter_handler, machine_interrupt_address,
}

-- In the page table that PTBR and PTLR give, the logical address `top` is the physical address `a`,
-- for writing if `write` is true.
abbrev pub MapsTo : Machine → Bool → ℕ → ℕ → Type 0
MapsTo s write top a =
    memory_translate_address s.mem (word_get_integer (s.regs ptbr)) (word_get_integer (s.regs ptlr))
      (pos top) write
    ≡ some (pos a)

abbrev marked : Bool → ℕ → Machine → Machine
marked true a s = record s { cpu = record (s.cpu) { mem_left = pos a } }
marked false a s = s

translated :
    (address : ℤ) (a : ℕ) (s : Machine)
    → check_translation address oper_fetch (some (pos a)) s ≡ ok (pos a) s
unfolding ◌>>=◌ check_translation translation_failure
translated address a s =
    let positive : ltb_ℤ (pos a) (pos 0) ≡ false = ground arith in
    let writable : eq_ℤ mem_nowrite (pos a) ≡ false = ground arith in
    let present : eq_ℤ mem_pagefault (pos a) ≡ false = ground arith in
    let legal : eq_ℤ mem_illpage (pos a) ≡ false = ground arith in
    rw (positive, writable, present, legal) refl

translated_in :
    (mode : Mode) (write : Bool) (s : Machine) (top a : ℕ)
    → mode ≡ user
    → MapsTo s write top a
    → machine_translate_address (pos top) write oper_fetch mode s ≡ ok (pos a) s
unfolding ◌>>=◌ get_integer machine_translate_address peek
translated_in mode write s top a m t = rw (m, t) (translated (pos top) a s)

user_word :
    (write : Bool) (s : Machine) (top a : ℕ)
    → s.cpu.mode ≡ user
    → word_get_integer (s.regs sp) ≡ pos top
    → MapsTo s write top a
    → a < memory_size
    → machine_stack_pointer write s ≡ ok (in_mem a) (marked write a s)
unfolding ◌>>=◌ get_integer machine_stack_pointer machine_memory_get_word check_word peek
    memory_get_word
user_word true s top a m p t h =
    rw (p, translated_in s.cpu.mode true s top a m t, lt→ltb a memory_size h) refl
user_word false s top a m p t h =
    rw (p, translated_in s.cpu.mode false s top a m t, lt→ltb a memory_size h) refl

pub handler_address : (n : ℕ) → n ≤ 18 → machine_interrupt_address (pos n) ≡ pos ((n * 2 + 2) * 512)
unfolding machine_interrupt_address ◌+ℤ◌ ◌*ℤ◌ wrap32
handler_address n h = ground arith

-- The state after an interrupt: the address of the next instruction is on the program's stack, and
-- IP is in the handler.
abbrev called : Machine → ℕ → ℕ → ℕ → Machine
called s top a n =
    let t = marked true a (with_sp s (suc top)) in
    let u = poke (in_mem a) (word_store_integer (t.mem a) (word_get_integer (t.regs ip))) t in
    poke (in_reg ip) (word_store_integer (u.regs ip) (pos ((n * 2 + 2) * 512))) u

abbrev in_user : Machine → Machine
in_user s = record s { cpu = record (s.cpu) { mode = user } }

abbrev pub in_kernel : Machine → Machine
in_kernel s = record s { cpu = record (s.cpu) { mode = kernel } }

abbrev pub interrupted : Machine → ℕ → ℕ → ℕ → Machine
interrupted s top a n = in_kernel (called s top a n)

stack_at :
    (s : Machine) (top : ℕ)
    → top < memory_size
    → word_get_integer ((with_sp s top).regs sp) ≡ pos top
unfolding poke update
stack_at s top h = word_get_integer-word_store_integer (s.regs sp) (pos top) (omega arith)

same_map :
    (s : Machine) (write : Bool) (top a p : ℕ)
    → MapsTo s write top a
    → MapsTo (with_sp s p) write top a
unfolding poke update
same_map s write top a p t = t

same_mode : (s : Machine) (p : ℕ) → (with_sp s p).cpu.mode ≡ s.cpu.mode
unfolding poke
same_mode s p = refl

call-ok :
    (s : Machine) (n top a : ℕ)
    → s.cpu.mode ≡ user
    → word_get_integer (s.regs sp) ≡ pos top
    → suc top < memory_size
    → MapsTo s true (suc top) a
    → a < memory_size
    → machine_execute_call_do (pos ((n * 2 + 2) * 512)) s ≡ ok tt (called s top a n)
unfolding ◌>>=◌ get_integer store_integer machine_execute_call_do peek
call-ok s n top a m p room t h =
    rw
      (
        p,
        add32_one top (omega arith),
        user_word true (with_sp s (suc top)) (suc top) a (same_mode s (suc top) ∙ m)
            (stack_at s (suc top) room) (same_map s true (suc top) a (suc top) t) h,
      )
      refl

interrupt_in :
    (mode : Mode) (s : Machine) (n top a : ℕ)
    → mode ≡ user
    → s.cpu.mode ≡ user
    → 1 ≤ n
    → n ≤ 18
    → word_get_integer (s.regs sp) ≡ pos top
    → suc top < memory_size
    → MapsTo s true (suc top) a
    → a < memory_size
    → interrupt_from mode (pos n) s ≡ ok tt (interrupted s top a n)
unfolding ◌>>=◌ interrupt_from enter_handler
interrupt_in mode s n top a e m lo hi p room t h =
    let raised_by_program : eq_ℤ (pos n) (pos 0) ≡ false = ground arith in
    rw (e, raised_by_program, handler_address n hi, call-ok s n top a m p room t h) refl

pub word_get_integer-InInt : (w : Word) → InInt (word_get_integer w)
unfolding word_get_integer atoi
word_get_integer-InInt w = wrap32-InInt _

-- What an interrupt from user mode leaves: kernel mode, IP in the handler, the program's next address
-- in the new top of its stack, and all else that the program can see as it was.
pub record Entered (s t : Machine) (n top a : ℕ) : Type 0 where
  pub mode : t.cpu.mode ≡ kernel
  pub handler : word_get_integer (t.regs ip) ≡ pos ((n * 2 + 2) * 512)
  pub stack : word_get_integer (t.regs sp) ≡ pos (suc top)
  pub return : word_get_integer (t.mem a) ≡ word_get_integer (s.regs ip)
  pub regs : (r : ℕ) → r ≢ sp → r ≢ ip → t.regs r ≡ s.regs r
  pub mem : (b : ℕ) → b ≢ a → t.mem b ≡ s.mem b

pub interrupted-Entered :
    (s : Machine) (n top a : ℕ)
    → n ≤ 18
    → suc top < memory_size
    → Entered s (interrupted s top a n) n top a
unfolding poke update
interrupted-Entered s n top a hi room = record {
  mode = refl;
  handler = word_get_integer-word_store_integer _ (pos ((n * 2 + 2) * 512)) (omega arith);
  stack = word_get_integer-word_store_integer _ (pos (suc top)) (omega arith);
  return =
      (let e : (a == a) ≡ true = ground arith in
        rw e (word_get_integer-word_store_integer _ _ (word_get_integer-InInt (s.regs ip))));
  regs = λ r d e. ground arith;
  mem = λ b d. ground arith;
}

-- In user mode, with SP at a logical address whose successor is below the size of the memory and
-- is mapped by the page table, for writing, to a physical address inside the memory, an interrupt
-- from 1 to 18 goes through: the machine is in kernel mode at the first address of the handler, SP
-- is one higher, the word there holds the value of IP, and all other registers and words of the
-- memory are as before. The handler's address is computed from the number, whatever a vector table
-- at 492 would hold, and the stack's page table entry keeps its Reference and Dirty bits, which
-- documentation/stage_6.md has differently.
pub interrupt-Entered :
    (s : Machine) (n top a : ℕ)
    → s.cpu.mode ≡ user
    → 1 ≤ n
    → n ≤ 18
    → word_get_integer (s.regs sp) ≡ pos top
    → suc top < memory_size
    → MapsTo s true (suc top) a
    → a < memory_size
    → (t : Machine) × (machine_execute_interrupt_do (pos n) s ≡ ok tt t) × Entered s t n top a
unfolding ◌>>=◌ machine_execute_interrupt_do
interrupt-Entered s n top a m lo hi p room t h = (
  interrupted s top a n,
  interrupt_in s.cpu.mode s n top a m m lo hi p room t h,
  interrupted-Entered s n top a hi room,
)

abbrev returned : Machine → ℕ → ℕ → Machine
returned u top a =
    let t = poke in_target (u.mem a) (in_user u) in
    let v = poke (in_reg sp) (word_store_integer (t.regs sp) (pos top)) t in
    poke (in_reg ip) (peek in_target v) v

iret-ok :
    (u : Machine) (top a : ℕ)
    → word_get_integer (u.regs sp) ≡ pos (suc top)
    → top < memory_size
    → MapsTo u false (suc top) a
    → a < memory_size
    → machine_execute_iret u ≡ ok tt (returned u top a)
unfolding ◌>>=◌ get_integer store_integer copy machine_execute_iret machine_pop_do peek word_copy
iret-ok u top a p room t h =
    rw (user_word false (in_user u) (suc top) a refl p t h, p, sub32_one top room) refl

-- Let an interrupt have entered the kernel from `s`, with the return address in the word of the
-- memory that is the top of the stack (Entered). IRET goes through in any later state that has the
-- SP and the top word that the interrupt left, and whose page table still maps SP, for reading, to
-- that word: the machine is in user mode with IP and SP as in `s`, and the other registers and the
-- memory are as they were before IRET, so that the Reference bit of the stack's page is not set, as
-- documentation/stage_6.md says it is. SP and the word lie below the size of the memory.
pub iret-interrupt :
    (s t u : Machine) (n top a : ℕ)
    → word_get_integer (s.regs sp) ≡ pos top
    → top < memory_size
    → Entered s t n top a
    → word_get_integer (u.regs sp) ≡ word_get_integer (t.regs sp)
    → u.mem a ≡ t.mem a
    → MapsTo u false (suc top) a
    → a < memory_size
    → (v : Machine) × (machine_execute_iret u ≡ ok tt v)
      × (v.cpu.mode ≡ user)
      × (word_get_integer (v.regs ip) ≡ word_get_integer (s.regs ip))
      × (word_get_integer (v.regs sp) ≡ word_get_integer (s.regs sp))
      × ((r : ℕ) → r ≢ sp → r ≢ ip → v.regs r ≡ u.regs r)
      × ((b : ℕ) → v.mem b ≡ u.mem b)
unfolding poke update peek
iret-interrupt s t u n top a p room entered same_sp same_top maps h = (
  returned u top a,
  iret-ok u top a (same_sp ∙ entered.stack) room maps h,
  refl,
  ap word_get_integer same_top ∙ entered.return,
  word_get_integer-word_store_integer _ (pos top) (omega arith) ∙ sym p,
  λ r d e. ground arith,
  λ b. refl,
)
