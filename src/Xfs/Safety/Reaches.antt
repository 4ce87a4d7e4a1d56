-- ===== src/Xfs/Safety/Reaches.antt =====
-- Disks that are formatted, and then loaded with files and cleared of files.
use myexpos.Prelude.{
  ◌≡◌, refl, ◌∙◌, ℕ, Bool, true, false, ◌||◌, Bytes, Option, arith, if◌then◌else◌,
}
use myexpos.Prelude.Int.{ℤ}
use myexpos.Xfs.State.{
  Virt, Disk, Result, ok, thrown, unspecified, M, ◌>>=◌, edit, create_disk_file, write_to_disk,
  open_disk_file, flushed, padded,
}
use myexpos.Xfs.VirtualDisk.{
  set_default_values, free_list, commit_mem_copy_to_disk, clear_virt_disk,
}
use myexpos.Xfs.Files.{
  format_disk, load_data_to_disk, load_executable_to_disk, delete_file_from_disk,
}
use myexpos.Xfs.Keeps.{Ends, returns, open_ended, Keeps, Ends-ok}
use myexpos.Xfs.Safety.{Safe, padded-flushed, is_kept_word, is_open_block, is_open_block-os}
use myexpos.Xfs.Safety.Format.{formatted, formatted-Sound}
use myexpos.Xfs.Safety.Commands.{load_data-Safe, load_executable-Safe, delete_file-Safe}

-- `t` has the programs of `s`, and a memory copy of its own.
record SamePrograms (s t : Disk) : Type 0 where
  present : t.present ≡ s.present
  programs : (a : ℕ) → is_kept_word a ≡ true → padded t a ≡ padded s a

flushed-SamePrograms :
    (b : ℕ) (s t : Disk)
    → is_open_block b ≡ true
    → SamePrograms s t
    → SamePrograms s (flushed b b t)
unfolding flushed
flushed-SamePrograms b s t h k = record {
  present = k.present;
  programs = λ a e. padded-flushed t b b a (is_open_block-os b a h e) ∙ k.programs a e;
}

edit-SamePrograms :
    (v : Virt) (s t : Disk) → SamePrograms s t → SamePrograms s (record t { virt = v })
unfolding padded
edit-SamePrograms v s t k = record { present = k.present; programs = k.programs }

-- formatDisk makes the disk file when it is not there.
abbrev pub created : Disk → Disk
created s = record s { present = true; blocks = if s.present then s.blocks else 0 }

same-SamePrograms : (s : Disk) → SamePrograms s s
same-SamePrograms s = record { present = refl; programs = λ a e. refl }

-- The writes of formatDisk.
abbrev pub formatted_disk : Disk → Disk
formatted_disk s =
    let v = clear_virt_disk s.virt in
    let t = flushed 2 2 (record s { virt = set_default_values free_list v }) in
    flushed 5 5 (flushed 5 5 (flushed 4 4 (flushed 3 3 (record t { virt = formatted v }))))

formatted_disk-SamePrograms : (s : Disk) → SamePrograms s (formatted_disk s)
formatted_disk-SamePrograms s =
    let v = clear_virt_disk s.virt in
    let s1 = record s { virt = set_default_values free_list v } in
    let s2 = flushed 2 2 s1 in
    let s3 = record s2 { virt = formatted v } in
    let k2 =
      flushed-SamePrograms 2 s s1 refl
        (edit-SamePrograms (set_default_values free_list v) s s (same-SamePrograms s)) in
    let k4 = flushed-SamePrograms 3 s s3 refl (edit-SamePrograms (formatted v) s s2 k2) in
    let s4 = flushed 3 3 s3 in
    let s5 = flushed 4 4 s4 in
    flushed-SamePrograms 5 s (flushed 5 5 s5) refl
      (flushed-SamePrograms 5 s s5 refl (flushed-SamePrograms 4 s s4 refl k4))

formatted_disk-Safe : (s : Disk) → s.present ≡ true → Safe (padded s) (formatted_disk s)
unfolding flushed
formatted_disk-Safe s h =
    let k = formatted_disk-SamePrograms s in
    record {
      present = k.present ∙ h;
      sound = formatted-Sound (clear_virt_disk s.virt);
      programs = k.programs;
    }

format_present :
    (virt : Virt) (blocks : ℕ) (content : Virt) (host getenv : Bytes → Option Bytes)
    (allowed : Bool)
    → let s : Disk = record {
      virt = virt;
      present = true;
      blocks = blocks;
      content = content;
      host = host;
      getenv = getenv;
    } in
      format_disk allowed s ≡ ok tt (formatted_disk s)
unfolding format_disk create_disk_file commit_mem_copy_to_disk write_to_disk open_disk_file edit
    ◌>>=◌ flushed
format_present virt blocks content host getenv allowed = refl

format_created :
    (virt : Virt) (blocks : ℕ) (content : Virt) (host getenv : Bytes → Option Bytes)
    → let s : Disk = record {
      virt = virt;
      present = false;
      blocks = blocks;
      content = content;
      host = host;
      getenv = getenv;
    } in
      format_disk true s ≡ ok tt (formatted_disk (created s))
unfolding format_disk create_disk_file commit_mem_copy_to_disk write_to_disk open_disk_file edit
    ◌>>=◌ flushed
format_created virt blocks content host getenv = refl

-- formatDisk returns, where the disk file is there or can be made; the memory copy is then sound, and
-- the operating system's programs are as they were in the file, which is empty if it was not there, and so
-- is what lies behind the disk's 512 blocks.
pub format_disk-Safe :
    (allowed : Bool) (s : Disk)
    → (s.present || allowed) ≡ true
    → (format_disk allowed s ≡ ok tt (formatted_disk (created s)))
      × Safe (padded (created s)) (formatted_disk (created s))
format_disk-Safe allowed s h =
    (by_presence (s.present) allowed h, formatted_disk-Safe (created s) refl)
  where
    by_presence :
        (present allowed : Bool)
        → (present || allowed) ≡ true
        → let t : Disk = record s { present = present } in
          format_disk allowed t ≡ ok tt (formatted_disk (created t))
    by_presence true allowed h = format_present s.virt s.blocks s.content s.host s.getenv allowed
    by_presence false true h = format_created s.virt s.blocks s.content s.host s.getenv
    by_presence false false h = absurd (ground arith)

-- The commands of the shell on files.
pub data Command : Type 0 where
  load_data load_executable delete : Bytes → Command

unfoldable pub run_command : Command → M ℤ
unfolding load_data_to_disk load_executable_to_disk delete_file_from_disk
run_command (load_data name) = load_data_to_disk name
run_command (load_executable name) = load_executable_to_disk name
run_command (delete name) = delete_file_from_disk name

run_command-Safe : {c : Virt} (command : Command) → Keeps true (Safe c) (run_command command)
unfolding run_command
run_command-Safe (load_data name) = load_data-Safe name
run_command-Safe (load_executable name) = load_executable-Safe name
run_command-Safe (delete name) = delete_file-Safe name

-- The disks that a sequence of commands leads to, each of which may fail.
pub data Reaches (s : Disk) : Disk → Type 0 where
  start : Reaches s s
  and_then :
      {t u : Disk} {r : ℤ} (command : Command)
      → Reaches s t
      → run_command command t ≡ ok r u
      → Reaches s u

-- Whatever files are loaded, by loads that succeed or fail, and deleted, a safe disk stays safe: the disk
-- file is there, the free list offers no block below the first data block, the entries behind the root
-- file's name none, and the words of the operating system's programs, and all behind the
-- disk's 512 blocks, are as they were.
pub Reaches-Safe : {c : Virt} {s t : Disk} → Reaches s t → Safe c s → Safe c t
Reaches-Safe start h = h
Reaches-Safe {c} (and_then {t = t} command r e) h =
    Ends-ok {P = Safe c} ((run_command-Safe command).at t (Reaches-Safe r h)) e

-- On a safe disk, a deletion returns, whether the file is there or not: it does not leave by longjmp,
-- and does nothing that C gives no meaning to. The disk that it leaves is safe, with the words of the operating
-- system's programs, and all behind the disk's 512 blocks, as they were.
pub delete_file_from_disk-returns :
    {c : Virt} (name : Bytes) (s : Disk)
    → Safe c s
    → (r : ℤ) × (t : Disk) × (delete_file_from_disk name s ≡ ok r t) × Safe c t
delete_file_from_disk-returns {c} name s h =
    outcome (delete_file_from_disk name s)
      ((delete_file-Safe {c = c} {partial = false} name).at s h)
  where
    outcome :
        (m : Result ℤ) → Ends false (Safe c) m → (r : ℤ) × (t : Disk) × (m ≡ ok r t) × Safe c t
    outcome (ok r t) (returns p) = (r, t, refl, p)
    outcome (thrown e t) p = elim p [ ]
    outcome unspecified (open_ended e) = absurd (ground arith)
