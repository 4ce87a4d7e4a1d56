-- ===== src/Xsm/Machine/Tests.antt =====
-- Small programs on the machine.
use myexpos.Prelude.{ℕ, ◌+◌, ◌*◌, ◌<◌, ◌≡◌, ◌≢◌, ◌≤◌, ◌⊎◌, not, refl, [], ◌∷◌, Bytes, codes, arith}
use myexpos.Prelude.Int.{sub32, pos}
use myexpos.Libc.{cstr}
use myexpos.Xsm.Word.{word_get_integer}
use myexpos.Xsm.Registers.{eip, ec, sp, bp, ip}
use myexpos.Xsm.Memory.{page_size}
use myexpos.Xsm.State.{exception_number, Machine, kernel, Run, ok, raised, in_reg, ◌>>◌}
use myexpos.Xsm.Machine.Stack.{
  machine_push_do, machine_pop_do, machine_execute_backup, machine_execute_restore,
}
use myexpos.Xsm.Machine.Stack.Kernel.{AtTop}
use myexpos.Xsm.Machine.Stack.Saved.{
  saved_cells, SavedIn, IsSaved, pop-push, backup-SavedIn, restore-backup,
}
use myexpos.Xsm.Machine.Keeps.Rounds.{Settles}
use myexpos.Xsm.Machine.Keeps.Words.{WordsOk, machine_run-WordsOk}
use myexpos.Xsm.Machine.Cycle.{
  Outcome, halted, running, machine_run, machine_init, machine_cycle, machine_round,
}
use myexpos.Xsm.Machine.Boot.{boot}
use myexpos.Xsm.Machine.Data.{logical_result, lt}
use myexpos.Xsm.Machine.Comparison.{negation, converse, logical_result_laws}
use myexpos.Xsm.Machine.Devices.{machine_execute_store_do, machine_execute_load_do}
use myexpos.Xsm.Machine.Transfers.{load-store}
use myexpos.Xsm.Machine.Faults.{machine_round-kernel}
use myexpos.Xsm.Machine.Open.{machine}
use myexpos.Xsm.Machine.Samples.{sample}

abbrev register_text : ℕ → Outcome → Bytes
register_text r (halted s) = cstr (s.regs r)
register_text r _ = codes "?"

arith_program :
    register_text 0 (
      machine 5 (
        sample (
          codes "MOV R0,"
          ∷ codes "5"
          ∷ codes "MOV R1,"
          ∷ codes "-12"
          ∷ codes "MUL R0,"
          ∷ codes "R1"
          ∷ codes "HALT"
          ∷ [])))
    ≡ codes "-60"
unfolding machine
arith_program = refl

-- The same machine with room for a stack, and the state after BACKUP.
abbrev quiet : Machine
quiet = sample []

abbrev stepped : Machine → Run Unit → Machine
stepped d (ok a s) = s
stepped d _ = d

abbrev backed_up : Machine
backed_up = stepped quiet (machine_execute_backup quiet)

quiet_top : AtTop quiet 0
unfolding machine
quiet_top = record { mode = refl; points = refl }

backed_up_top : AtTop backed_up (0 + saved_cells)
unfolding machine
backed_up_top = record { mode = refl; points = refl }

backup_runs : machine_execute_backup quiet ≡ ok tt backed_up
unfolding machine
backup_runs = refl

pop-push_example :
    (t : Machine) × ((machine_push_do (in_reg 0) >> machine_pop_do (in_reg bp)) quiet ≡ ok tt t)
    × AtTop t 0
    × (t.regs bp ≡ quiet.regs 0)
    × ((o : ℕ) → o ≢ sp → o ≢ bp → t.regs o ≡ quiet.regs o)
    × ((a : ℕ) → a ≢ 1 → t.mem a ≡ quiet.mem a)
pop-push_example = pop-push quiet 0 0 bp quiet_top (omega arith) (omega arith) (omega arith)

backup-SavedIn_example :
    (t : Machine) × (machine_execute_backup quiet ≡ ok tt t)
    × AtTop t (0 + saved_cells)
    × SavedIn t.mem quiet 0
backup-SavedIn_example = backup-SavedIn quiet 0 quiet_top (omega arith)

restore-backup_example :
    (v : Machine) × (machine_execute_restore backed_up ≡ ok tt v)
    × AtTop v 0
    × ((r : ℕ) → IsSaved r → v.regs r ≡ quiet.regs r)
restore-backup_example =
    restore-backup quiet backed_up backed_up 0 quiet_top (omega arith) backup_runs backed_up_top
      (λ k h. refl)

quiet_words : WordsOk quiet
quiet_words = record {
  regs = λ r. refl;
  mem = λ a. refl;
  disk = λ a. refl;
  console = refl;
  target = refl;
}

machine_run-WordsOk_example : Settles WordsOk (machine_run 3 quiet)
machine_run-WordsOk_example = machine_run-WordsOk 3 quiet quiet_words

boot_example :
    (t : Machine) × (machine_run 3 (machine_init quiet.options quiet) ≡ running t)
    × ((i : ℕ) → i < 2 * page_size → t.mem (page_size + i) ≡ quiet.disk i)
    × (word_get_integer (t.regs ip) ≡ pos page_size)
    × (t.cpu.mode ≡ kernel)
    × ((i : ℕ) → t.disk i ≡ quiet.disk i)
boot_example = boot quiet.options quiet

logical_result_laws_example :
    (logical_result (negation lt) (codes "-12") (codes "a word")
      ≡ not (logical_result lt (codes "-12") (codes "a word")))
    × (logical_result (converse lt) (codes "-12") (codes "a word")
        ≡ logical_result lt (codes "a word") (codes "-12"))
logical_result_laws_example = logical_result_laws lt (codes "-12") (codes "a word")

load-store_example :
    (t : Machine) × ((machine_execute_store_do (pos 1) (pos 7)
          >> machine_execute_load_do (pos 2) (pos 7))
        quiet
      ≡ ok tt t)
    × ((i : ℕ) → i < page_size → t.mem (2 * page_size + i) ≡ quiet.mem (1 * page_size + i))
    × ((a : ℕ) → (a < 2 * page_size) ⊎ (2 * page_size + page_size ≤ a) → t.mem a ≡ quiet.mem a)
    × ((a : ℕ) → (a < 7 * page_size) ⊎ (7 * page_size + page_size ≤ a) → t.disk a ≡ quiet.disk a)
load-store_example = load-store quiet 1 7 2 (omega arith) (omega arith) (omega arith)

-- Where the first instruction is a NULL.
abbrev stuck : Machine
stuck = elim (machine_cycle quiet) [ ok a s ↦ s | raised s ↦ s | _ ↦ quiet ]

stuck_raises : machine_cycle quiet ≡ raised stuck
unfolding machine
stuck_raises = refl

stuck_mode : stuck.cpu.mode ≡ kernel
unfolding machine
stuck_mode = refl

machine_round-kernel_example :
    (u : Machine) × (machine_round quiet ≡ halted u)
    × (word_get_integer (u.regs eip) ≡ sub32 (word_get_integer (stuck.regs ip)) (pos 2))
    × (word_get_integer (u.regs ec) ≡ exception_number stuck.exception.type)
    × ((a : ℕ) → u.mem a ≡ stuck.mem a)
machine_round-kernel_example = machine_round-kernel quiet stuck stuck_raises stuck_mode
