-- ===== src/Xfs/Tests.antt =====
-- The theorems about the XFS interface on concrete disks, names and programs.
use myexpos.Prelude.{
  if◌then◌else◌, ◌≡◌, ◌≢◌, ◌≤◌, ◌⊎◌, inr, refl, ℕ, ◌+◌, ◌*◌, ◌<◌, true, false, not, ◌&&◌, none,
  some, List, [], ◌∷◌, ◌++◌, Bytes, codes, arith, All, length, leb,
}
use myexpos.Prelude.Int.{ℤ, pos, negsuc, eq_ℤ, wrap32}
use myexpos.Libc.{cstr, atoi, skip_space, signed_value, leading, strcmp}
use myexpos.Libc.Streams.{fgets_all, newline}
use myexpos.Libc.Decimal.{IsText}
use myexpos.Xfs.Layout.{block_size, xfs_failure, xfs_success, data_file}
use myexpos.Xfs.State.{
  Virt, Disk, ok, in_block, padded, write_to_disk, read_from_disk, open_disk_file, flushed, edit,
  pure, ◌>>=◌, ◌>>◌,
}
use myexpos.Xfs.State.Transfer.{read_from_disk-write_to_disk}
use myexpos.Xfs.VirtualDisk.{get_value, get_value_at, empty_block, find_free_block}
use myexpos.Xfs.VirtualDisk.FreeList.{is_free, FreeBlock, find_free_block-FreeBlock}
use myexpos.Xfs.Inode.{
  scan_name, get_inode_entry, get_data_blocks, add_entry_to_mem_inode, remove_inode_entry,
}
use myexpos.Xfs.Inode.Table.{
  get_inode_entry-add_entry_to_mem_inode, get_inode_entry-remove_inode_entry,
}
use myexpos.Xfs.Names.{addext}
use myexpos.Xfs.Names.Extension.{HasExtension, addext-HasExtension}
use myexpos.Xfs.Assembly.{assemble_line, nothing, one_word, two_words}
use myexpos.Xfs.Labels.{
  labels_resolve, complete, text_of, labels_get_name, labels_is_label, phase_one_lines,
  labels_phase_one, labels_get_target, remove_newline_character, Label,
}
use myexpos.Xfs.Labels.Targets.{
  IsProgramLine, IsLabelLine, instruction_count, labels_get_target-labels_phase_one,
}
use myexpos.Xfs.WriteFile.{data_words, write_words}
use myexpos.Xfs.WriteFile.Lines.{IsShortLine, Stores, strings-write_words}
use myexpos.Xfs.Programs.{clear_disk_blocks, write_blocks}
use myexpos.Xfs.Programs.Places.{Outside, program-Outside}
use myexpos.Xfs.Files.{find_blocks, give_up, delete_file_from_disk, format_disk}
use myexpos.Xfs.Files.Allocation.{AreTakenFrom, has_block, find_blocks-AreTakenFrom}
use myexpos.Xfs.Files.Deletion.{Deleted, delete_file_from_disk-Deleted}
use myexpos.Xfs.VirtualDisk.{set_default_values}
use myexpos.Xfs.Files.GiveUp.{after_find_blocks, is_table_word, give_up-find_blocks}
use myexpos.Xfs.Export.{as_lines}
use myexpos.Xfs.Safety.{Safe}
use myexpos.Xfs.Safety.Entries.{add_entry-Sound}
use myexpos.Xfs.Safety.Reaches.{
  created, formatted_disk, format_disk-Safe, delete, run_command, Reaches, start, and_then,
  Reaches-Safe, delete_file_from_disk-returns,
}

-- A memory copy with -1 in every word, and one with 0.
abbrev blank : Virt
blank a = codes "-1"

abbrev all_free : Virt
all_free a = if leb 1034 a then codes "0" else codes "1"

abbrev new_disk : Disk
new_disk = record {
  virt = all_free;
  present = true;
  blocks = 3;
  content = λ a. codes "old";
  host = λ path. none;
  getenv = λ name. none;
}

abbrev formatted_new : Disk
formatted_new = formatted_disk (created new_disk)

assemble_line_tests :
    (assemble_line (codes "MOV R0, 5\n") ≡ two_words (codes "MOV R0,") (codes "5"))
    × (assemble_line (codes "HALT\n") ≡ two_words (codes "HALT") [])
    × (assemble_line (codes "PUSH R1\n") ≡ two_words (codes "PUSH R1") [])
    × (assemble_line (codes "0\n") ≡ one_word (codes "0"))
    × (assemble_line (codes "\n") ≡ nothing)
    × (assemble_line (codes "MOV R1, \"a long string that is cut\"\n")
        ≡ two_words (codes "MOV R1,") (codes "\"a long string\""))
unfolding assemble_line
assemble_line_tests = (refl, refl, refl, refl, refl, refl)

labels_resolve_tests :
    labels_resolve (codes "MOV R0, 1\nloop:\nDCR R0\nJNZ R0, loop\nJMP end\nend:\nHALT\n") 512
    ≡ some (complete (codes "MOV R0, 1\nDCR R0\nJNZ R0, 514\nJMP 520\nHALT\n"))
unfolding labels_resolve text_of labels_get_name
labels_resolve_tests = refl

Safe-new : Safe (padded (created new_disk)) formatted_new
Safe-new = (format_disk-Safe true new_disk refl).1

format_disk-Safe_example :
    (format_disk true new_disk ≡ ok tt formatted_new)
    × Safe (padded (created new_disk)) formatted_new
format_disk-Safe_example = format_disk-Safe true new_disk refl

-- The formatted disk with a file of two blocks entered in it.
abbrev notes_blocks : List ℤ
notes_blocks = pos 69 ∷ pos 70 ∷ negsuc 0 ∷ negsuc 0 ∷ []

abbrev disk_with_notes : Disk
disk_with_notes = record formatted_new {
  virt =
      add_entry_to_mem_inode (1 * 16) data_file (codes "notes.dat") (pos 600) notes_blocks
        formatted_new.virt;
}

Safe-notes : Safe (padded (created new_disk)) disk_with_notes
unfolding padded
Safe-notes = record {
  present = Safe-new.present;
  sound =
      add_entry-Sound 1 data_file (codes "notes.dat") (pos 600) notes_blocks (formatted_new.virt)
        (omega arith) (refl, (refl, (refl, (refl, tt)))) Safe-new.sound;
  programs = Safe-new.programs;
}

delete_file_from_disk-returns_example :
    (r : ℤ) × (t : Disk) × (delete_file_from_disk (codes "notes.dat") disk_with_notes ≡ ok r t)
    × Safe (padded (created new_disk)) t
delete_file_from_disk-returns_example =
    delete_file_from_disk-returns (codes "notes.dat") disk_with_notes Safe-notes

finds_notes : get_inode_entry (codes "notes.dat") disk_with_notes.virt ≡ pos (1 * 16)
unfolding get_inode_entry scan_name strcmp cstr get_value atoi skip_space signed_value leading
    wrap32 add_entry_to_mem_inode set_default_values myexpos.Xfs.VirtualDisk.store_value_at
    myexpos.Xfs.VirtualDisk.store_string_value_at flushed myexpos.Xfs.Files.user_table
    myexpos.Xfs.VirtualDisk.store_string
finds_notes = refl

delete_file_from_disk-Deleted_example :
    (t : Disk) × (delete_file_from_disk (codes "notes.dat") disk_with_notes ≡ ok xfs_success t)
    × Deleted 1 disk_with_notes t
delete_file_from_disk-Deleted_example =
    delete_file_from_disk-Deleted (codes "notes.dat") 1 disk_with_notes Safe-notes
      (λ same. ground arith) finds_notes (omega arith) (omega arith)

deletion :
    (r : ℤ) × (t : Disk) × (delete_file_from_disk (codes "notes.dat") disk_with_notes ≡ ok r t)
    × Safe (padded (created new_disk)) t
deletion = delete_file_from_disk-returns (codes "notes.dat") disk_with_notes Safe-notes

abbrev deleted : Disk
deleted = deletion.1

one_deletion : Reaches disk_with_notes deleted
unfolding run_command
one_deletion = and_then {r = deletion.0} (delete (codes "notes.dat")) start (deletion.2)

Reaches-Safe_example : Safe (padded (created new_disk)) deleted
Reaches-Safe_example = Reaches-Safe one_deletion Safe-notes

read_from_disk-write_to_disk_example :
    (t : Disk) × ((write_to_disk 69 7 >> read_from_disk 70 7) new_disk ≡ ok tt t)
    × ((i : ℕ)
        → i < block_size
        → t.virt (70 * block_size + i) ≡ new_disk.virt (69 * block_size + i))
    × ((a : ℕ) → in_block 70 a ≡ false → t.virt a ≡ new_disk.virt a)
read_from_disk-write_to_disk_example = read_from_disk-write_to_disk 69 70 7 new_disk refl

find_free_block-FreeBlock_example :
    FreeBlock all_free ((find_free_block all_free).1) ((find_free_block all_free).0)
find_free_block-FreeBlock_example = find_free_block-FreeBlock all_free

find_blocks-AreTakenFrom_example :
    AreTakenFrom (is_free all_free) ((find_blocks 3 all_free).0)
    × ((i : ℕ)
        → is_free ((find_blocks 3 all_free).1.1) i
          ≡ (is_free all_free i && not (has_block ((find_blocks 3 all_free).0) i)))
    × (((find_blocks 3 all_free).1.0 ≡ false) ⊎ (length ((find_blocks 3 all_free).0) ≡ 3))
find_blocks-AreTakenFrom_example = find_blocks-AreTakenFrom 3 all_free

block_0_taken : is_free all_free 0 ≡ false
unfolding get_value_at get_value atoi cstr skip_space signed_value leading wrap32
block_0_taken = refl

give_up-find_blocks_example :
    (t : Disk) × (give_up ((find_blocks 2 all_free).0) (after_find_blocks 2 new_disk)
      ≡ ok xfs_failure t)
    × ((i : ℕ) → i < 512 → is_free t.virt i ≡ is_free all_free i)
    × ((a : ℕ) → is_table_word a ≡ true → t.virt a ≡ all_free a)
give_up-find_blocks_example = give_up-find_blocks 2 new_disk refl block_0_taken

abbrev four_blocks : List ℤ
four_blocks = pos 69 ∷ pos 75 ∷ negsuc 0 ∷ negsuc 0 ∷ []

abbrev with_notes : Virt
with_notes =
    add_entry_to_mem_inode (2 * 16) data_file (codes "notes.dat") (pos 600) four_blocks blank

notes-unknown : get_inode_entry (codes "notes.dat") blank ≡ negsuc 0
unfolding get_inode_entry scan_name strcmp cstr get_value atoi skip_space signed_value leading
    wrap32
notes-unknown = refl

minus_one : get_value (codes "-1") ≡ negsuc 0
unfolding get_value atoi cstr skip_space signed_value leading wrap32
minus_one = refl

notes-findable : not (eq_ℤ (get_value (codes "notes.dat")) (negsuc 0)) ≡ true
unfolding get_value atoi cstr skip_space signed_value leading wrap32
notes-findable = refl

empty_word : eq_ℤ (get_value (codes "-1")) (negsuc 0) ≡ true
empty_word = rw minus_one refl

get_inode_entry-add_entry_to_mem_inode_example :
    (get_inode_entry (codes "notes.dat") with_notes ≡ pos (2 * 16))
    × (get_data_blocks (2 * 16) with_notes ≡ four_blocks)
    × (get_inode_entry (codes "other.dat") with_notes ≡ get_inode_entry (codes "other.dat") blank)
get_inode_entry-add_entry_to_mem_inode_example =
    get_inode_entry-add_entry_to_mem_inode 2 data_file (codes "notes.dat") (pos 600) four_blocks
      blank (omega arith) refl (codes "other.dat") (λ same. ground arith) notes-unknown
      (ground arith) notes-findable empty_word (ground arith)

get_inode_entry-remove_inode_entry_example :
    get_inode_entry (codes "any.xsm") (remove_inode_entry (2 * 16) with_notes)
    ≡ get_inode_entry (codes "any.xsm") blank
get_inode_entry-remove_inode_entry_example =
    get_inode_entry-remove_inode_entry 2 data_file (codes "notes.dat") (pos 600) four_blocks blank
      (omega arith) refl (ground arith) empty_word (codes "any.xsm")

addext-HasExtension_example :
    (r : Bytes) × (addext (codes "a-long-filename") (codes ".dat") ≡ some r)
    × HasExtension r (codes ".dat")
addext-HasExtension_example =
    addext-HasExtension (codes "a-long-filename") (codes ".dat") refl (omega arith)

abbrev two_lines : List Bytes
two_lines = codes "first line" ∷ codes "2" ∷ []

short_lines : All IsShortLine two_lines
short_lines = (
  record {
    text = ground arith;
    one_line = ground arith;
    some_text = omega arith;
    short = omega arith;
  },
  (
    record {
      text = ground arith;
      one_line = ground arith;
      some_text = omega arith;
      short = omega arith;
    },
    tt,
  ),
)

strings-write_words_example :
    Stores two_lines (write_words data_words (fgets_all 16 (as_lines two_lines)) blank)
strings-write_words_example =
    strings-write_words two_lines blank (omega arith) (omega arith) short_lines

new_disk-Outside : Outside 17 2 (padded new_disk) new_disk
new_disk-Outside = record { present = refl; words = λ a h. refl }

-- The blocks of the timer routine, cleared.
abbrev cleared : Disk
cleared = flushed 69 18 (flushed 69 17 (record new_disk { virt = empty_block 69 all_free }))

clearing : clear_disk_blocks 17 2 new_disk ≡ ok xfs_success cleared
unfolding clear_disk_blocks write_blocks write_to_disk open_disk_file edit pure ◌>>=◌ flushed
clearing = refl

program-Outside_example : Outside 17 2 (padded new_disk) cleared
program-Outside_example =
    program-Outside {first = 17} {count = 2} {c = padded new_disk} (codes "timer.xsm") 4 new_disk
      cleared xfs_success new_disk-Outside (inr (inr clearing))

abbrev before_loop : List Bytes
before_loop = codes "MOV R0, 1" ∷ codes "start:" ∷ codes "INR R0" ∷ []

abbrev program : List Bytes
program = before_loop ++ codes "loop:" ∷ codes "JMP loop" ∷ []

loop_label : Label
loop_label = record { name = codes "loop"; address = 4 }

start_label : Label
start_label = record { name = codes "start"; address = 2 }

program_labels : labels_phase_one (as_lines program) ≡ some (loop_label ∷ start_label ∷ [])
unfolding labels_phase_one text_of remove_newline_character cstr labels_is_label labels_get_name
    loop_label start_label phase_one_lines fgets_all
program_labels = refl

program_line :
    (line : Bytes)
    → IsText line
    → All (λ c. c ≢ newline) line
    → length line ≤ 31
    → IsProgramLine line
program_line line t o h = record { text = t; fits = record { one_line = o; short = omega arith } }

program_lines : All IsProgramLine program
program_lines = (
  program_line _ (ground arith) (ground arith) (omega arith),
  (
    program_line _ (ground arith) (ground arith) (omega arith),
    (
      program_line _ (ground arith) (ground arith) (omega arith),
      (
        program_line _ (ground arith) (ground arith) (omega arith),
        (program_line _ (ground arith) (ground arith) (omega arith), tt),
      ),
    ),
  ),
)

loop-IsLabelLine : IsLabelLine (codes "loop") (codes "loop:")
unfolding labels_is_label labels_get_name
loop-IsLabelLine = record { is_label = refl; named = refl }

jump_is_instruction : labels_is_label (codes "JMP loop") ≡ some false
unfolding labels_is_label
jump_is_instruction = refl

labels_get_target-labels_phase_one_example :
    labels_get_target (loop_label ∷ start_label ∷ []) (codes "loop")
    ≡ some (2 * instruction_count before_loop)
labels_get_target-labels_phase_one_example =
    labels_get_target-labels_phase_one before_loop (codes "JMP loop" ∷ []) (codes "loop:")
      (codes "loop") (loop_label ∷ start_label ∷ []) program_lines program_labels loop-IsLabelLine
      (
        (λ d. absurd (let e = d.is_label in let f = jump_is_instruction in ground (arith, e, f))),
        tt,
      )
