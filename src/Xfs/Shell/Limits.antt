-- ===== src/Xfs/Shell/Limits.antt =====
-- The blocks of the disk that loading an interrupt routine or a module leaves alone.
use myexpos.Prelude.{
  ◌≡◌, inl, inr, refl, ℕ, ◌+◌, ◌*◌, ◌-◌, ◌≤◌, true, ◌&&◌, Option, none, some, Bytes, codes, arith,
  leb, Bool-cases,
}
use myexpos.Prelude.Int.{ℤ, pos, negsuc}
use myexpos.Libc.{atoi}
use myexpos.Xfs.State.{Virt, Disk, ok, M}
use myexpos.Xfs.Keeps.{Keeps, Keeps-pure, Keeps-bind, Keeps-if, Keeps-undefined, Ends-ok}
use myexpos.Xfs.Programs.Load.{
  timer_code, disk_controller_int_code, console_int_code, int_code, module_code,
}
use myexpos.Xfs.Programs.Places.{Outside, load_code_with_labels-Outside}
use myexpos.Xfs.Shell.{
  discard, is_word, in_range, load_interrupt, load_module, no_of_interrupts, no_of_modules,
}

module _ {first count : ℕ} {c : Virt} where
  discard-Outside :
      (m : M ℤ)
      → Keeps true (Outside first count c) m
      → Keeps true (Outside first count c) (discard m)
  discard-Outside m h =
      Keeps-bind {P = Outside first count c} m _ h (λ _. Keeps-pure {P = Outside first count c} tt)

  in_range-Outside :
      (low high : ℕ) (n : ℤ) (k : ℕ → M (Unit {0}))
      → ((i : ℕ) → low ≤ i → i ≤ high → Keeps true (Outside first count c) (k i))
      → Keeps true (Outside first count c) (in_range low high n k)
  in_range-Outside low high (pos i) k h = elim (Bool-cases (leb low i && leb i high)) [
    | inl e ↦ rw e (h i (ground arith) (ground arith))
    | inr e ↦ rw e (Keeps-pure {P = Outside first count c} tt)
  ]
  in_range-Outside low high (negsuc i) k h = Keeps-pure {P = Outside first count c} tt

-- The blocks from the timer routine's to those of interrupt 18.
load_interrupt-Keeps :
    {c : Virt} (int_type : Option Bytes) (file_name : Bytes)
    → Keeps true (Outside 17 36 c) (load_interrupt int_type file_name)
unfolding load_interrupt timer_code disk_controller_int_code console_int_code int_code
load_interrupt-Keeps {c} none file_name = Keeps-undefined {P = Outside 17 36 c} refl
load_interrupt-Keeps {c} (some int_type) file_name =
    Keeps-if {P = Outside 17 36 c} (is_word int_type (codes "timer"))
      (discard-Outside _
        (load_code_with_labels-Outside 17 2 (omega arith) (omega arith) file_name 4))
      (Keeps-if {P = Outside 17 36 c} (is_word int_type (codes "disk"))
        (discard-Outside _
          (load_code_with_labels-Outside 19 2 (omega arith) (omega arith) file_name 6))
        (Keeps-if {P = Outside 17 36 c} (is_word int_type (codes "console"))
          (discard-Outside _
            (load_code_with_labels-Outside 21 2 (omega arith) (omega arith) file_name 8))
          (in_range-Outside 4 no_of_interrupts (atoi int_type) _ (λ i h k. discard-Outside _ (
            load_code_with_labels-Outside ((i - 1) * 2 + 17) 2 (omega arith) (omega arith) file_name
              ((i - 1) * 2 + 4))))))

load_module-Keeps :
    {c : Virt} (number : Bytes) (path : Option Bytes)
    → Keeps true (Outside 53 24 c) (load_module number path)
unfolding load_module module_code
load_module-Keeps {c} number none =
    in_range-Outside 0 no_of_modules (atoi number) _
      (λ i h k. Keeps-undefined {P = Outside 53 24 c} refl)
load_module-Keeps {c} number (some file_name) =
    in_range-Outside 0 no_of_modules (atoi number) _ (λ i h k. discard-Outside _ (
      load_code_with_labels-Outside (i * 2 + 53) 2 (omega arith) (omega arith) file_name
        (i * 2 + 40)))

-- Loading an interrupt routine, whatever its type is and whatever is in the file, changes no word of the
-- disk file outside the blocks 17 to 52, where it returns, and loading a module none outside the blocks 53
-- to 76, of which those from 69 on are data blocks. (The disk file is there.)
pub load_interrupt-Outside :
    {c d : Virt} (int_type path : Option Bytes) (file_name number : Bytes) (s t u : Disk)
    → Outside 17 36 c s
    → Outside 53 24 d s
    → load_interrupt int_type file_name s ≡ ok tt t
    → load_module number path s ≡ ok tt u
    → Outside 17 36 c t × Outside 53 24 d u
load_interrupt-Outside {c} {d} int_type path file_name number s t u hs hd e f = (
  Ends-ok {P = Outside 17 36 c} ((load_interrupt-Keeps int_type file_name).at s hs) e,
  Ends-ok {P = Outside 53 24 d} ((load_module-Keeps number path).at s hd) f,
)
