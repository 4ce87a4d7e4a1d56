-- ===== src/Xfs/Shell/Tests.antt =====
-- Lines of the shell on a concrete disk.
use myexpos.Prelude.{if◌then◌else◌, ◌≡◌, refl, true, none, some, codes, leb}
use myexpos.Prelude.Int.{wrap32}
use myexpos.Libc.{cstr, atoi, skip_space, signed_value, leading, strcmp}
use myexpos.Libc.Streams.{fgets_all}
use myexpos.Xfs.State.{
  thrown, Virt, Disk, ok, padded, write_to_disk, open_disk_file, edit, pure, ◌>>=◌,
}
use myexpos.Xfs.Shell.{load_interrupt, load_module, is_word}
use myexpos.Xfs.Shell.Limits.{load_interrupt-Outside}
use myexpos.Xfs.Names.{expandpath, expand_from, trim, trim_end}
use myexpos.Libc.Streams.{strchr, pieces, met_eof, ends_line, split_at, strtok, skip}
use myexpos.Xfs.Assembly.{cut_string, assemble_buffer, chomp, instruction_parts, arguments}
use myexpos.Xfs.Labels.{labels_phase_one, labels_phase_two, phase_two_lines, collect, resolve_line}
use myexpos.Xfs.WriteFile.{write_file_to_disk, finish, write_assembly}
use myexpos.Xfs.Programs.{
  load_code_with_labels, load_resolved, load_open_code, load_blocks, unless_full,
}
use myexpos.Xfs.Programs.Load.{timer_code, module_code}
use myexpos.Xfs.State.{Result, unspecified}
use myexpos.Xfs.Assembly.{assemble_line}
use myexpos.Xfs.Labels.{
  labels_resolve, text_of, labels_is_label, phase_one_lines, remove_newline_character,
}
use myexpos.Xfs.WriteFile.{write_words}
use myexpos.Xfs.Programs.Places.{Outside}

abbrev all_free : Virt
all_free a = if leb 1034 a then codes "0" else codes "1"

abbrev new_disk : Disk
new_disk = record {
  virt = all_free;
  present = true;
  blocks = 3;
  content = λ a. codes "old";
  host = λ path. none;
  getenv = λ name. none;
}

abbrev with_program : Disk
with_program = record new_disk { host = λ path. some (codes "HALT\n") }

abbrev disk_of : Result (Unit {0}) → Disk
disk_of (ok a t) = t
disk_of (thrown e t) = t
disk_of unspecified = new_disk

abbrev with_timer : Disk
with_timer = disk_of (load_interrupt (some (codes "timer")) (codes "timer.xsm") with_program)

abbrev with_module : Disk
with_module = disk_of (load_module (codes "7") (some (codes "seven.xsm")) with_program)

timer_loads :
    load_interrupt (some (codes "timer")) (codes "timer.xsm") with_program ≡ ok tt with_timer
unfolding load_interrupt is_word strcmp cstr pure ◌>>=◌ timer_code load_code_with_labels expandpath
    expand_from split_at strchr load_resolved load_open_code labels_resolve labels_phase_one
    phase_one_lines labels_phase_two phase_two_lines fgets_all pieces labels_is_label text_of
    remove_newline_character collect resolve_line load_blocks write_file_to_disk finish write_words
    write_assembly met_eof ends_line assemble_line cut_string assemble_buffer chomp strtok skip
    instruction_parts arguments trim trim_end skip_space edit write_to_disk open_disk_file
    unless_full
timer_loads = refl

module_loads : load_module (codes "7") (some (codes "seven.xsm")) with_program ≡ ok tt with_module
unfolding load_module atoi cstr skip_space signed_value leading wrap32 pure ◌>>=◌ module_code
    load_code_with_labels expandpath expand_from split_at strchr load_resolved load_open_code
    labels_resolve labels_phase_one phase_one_lines labels_phase_two phase_two_lines fgets_all
    pieces labels_is_label text_of remove_newline_character collect resolve_line load_blocks
    write_file_to_disk finish write_words write_assembly met_eof ends_line assemble_line cut_string
    assemble_buffer chomp strtok skip instruction_parts arguments trim trim_end edit write_to_disk
    open_disk_file unless_full
module_loads = refl

load_interrupt-Outside_example :
    Outside 17 36 (padded with_program) with_timer × Outside 53 24 (padded with_program) with_module
load_interrupt-Outside_example =
    load_interrupt-Outside {c = padded with_program} {d = padded with_program}
      (some (codes "timer")) (some (codes "seven.xsm")) (codes "timer.xsm") (codes "7") with_program
      with_timer with_module (record { present = refl; words = λ a h. refl })
      (record { present = refl; words = λ a h. refl }) timer_loads module_loads
