-- ===== src/Xsm/Machine/Boot.antt =====
-- The ROM code that machine_init stores, run from the initial state.
use myexpos.Prelude.{◌≡◌, refl, ℕ, ◌+◌, ◌-◌, ◌*◌, ◌<◌, ◌≤◌, arith, ap}
use myexpos.Prelude.Int.{pos}
use myexpos.Xsm.Word.{Word, word_get_integer}
use myexpos.Xsm.Registers.{ip}
use myexpos.Xsm.Memory.{page_size}
use myexpos.Xsm.State.{Machine, Options, kernel}
use myexpos.Xsm.Machine.Devices.{copy_page}
use myexpos.Xsm.Machine.Cycle.{Outcome, halted, running, machine_run, machine_init}
use myexpos.Xsm.Machine.Open.{machine}

abbrev state_of : Machine → Outcome → Machine
state_of d (halted s) = s
state_of d (running s) = s
state_of d _ = d

booted : Options → Machine → Machine
booted options s = state_of s (machine_run 3 (machine_init options s))

boot_runs :
    (options : Options) (s : Machine)
    → machine_run 3 (machine_init options s) ≡ running (booted options s)
unfolding booted machine
boot_runs options s = refl

second : (i : ℕ) → 512 ≤ i → 512 + (512 + i - 1024) ≡ i
second i h = omega arith

two_blocks :
    (mem disk : ℕ → Word) (i : ℕ)
    → i < 1024
    → copy_page (copy_page mem 512 disk 0) 1024 disk 512 (512 + i) ≡ disk i
unfolding copy_page
two_blocks mem disk i h =
    let first : 0 + (512 + i - 512) ≡ i = omega arith in
    ground (arith, ap disk first, λ (h : 512 ≤ i). ap disk (second i h))

-- From the state that machine_init leaves, whatever the registers, the memory and the disk held, the
-- first three rounds end without an exception: the machine is in kernel mode with IP at 512, pages 1
-- and 2 of the memory hold blocks 0 and 1 of the disk, and the disk is as it was.
pub boot :
    (options : Options) (s : Machine)
    → (t : Machine) × (machine_run 3 (machine_init options s) ≡ running t)
      × ((i : ℕ) → i < 2 * page_size → t.mem (page_size + i) ≡ s.disk i)
      × (word_get_integer (t.regs ip) ≡ pos page_size)
      × (t.cpu.mode ≡ kernel)
      × ((i : ℕ) → t.disk i ≡ s.disk i)
unfolding booted machine
boot options s = (
  booted options s,
  refl,
  λ i h. two_blocks (machine_init options s).mem s.disk i h,
  refl,
  refl,
  λ i. refl,
)
