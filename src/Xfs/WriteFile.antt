-- ===== src/Xfs/WriteFile.antt =====
-- writeFileToDisk of xfs-interface/diskUtility.c: a block's worth of a file, from where the file is read.
pub mod Lines
use myexpos.Prelude.{
  ℕ, zero, suc, ◌+◌, ◌*◌, Bool, true, false, ◌&&◌, ◌||◌, List, [], ◌∷◌, Bytes, leb, if◌then◌else◌,
  length, Option, none, some,
}
use myexpos.Libc.{cstr}
use myexpos.Libc.Streams.{met_eof}
use myexpos.Xfs.Layout.{block_size, temp_block}
use myexpos.Xfs.State.{Virt, Disk, Result, ok, M, pure, edit, undefined, ◌>>=◌, ◌>>◌, write_to_disk}
use myexpos.Xfs.VirtualDisk.{store_string_value_at, empty_block}
use myexpos.Xfs.Assembly.{Assembled, nothing, overflow, one_word, two_words, chomp, assemble_line}

-- ASSEMBLY_CODE and DATA_FILE.
pub data WriteType : Type 0 where
  assembly_code data_words : WriteType

-- How the loop over the block's words comes out: the block is full, and what fgets will read next; or
-- the end of the file was met; or a text did not fit its buffer, or the buffer had none.
pub data Written : Type 0 where
  full : Virt → List Bytes → Written
  ended : Virt → Written
  overflowed : Written

abbrev pub word_at : ℕ → ℕ
word_at k = temp_block * block_size + k

-- The loop for ASSEMBLY_CODE over what fgets reads with a buffer of 100 characters. The second word of
-- the last instruction may be the first of the block behind.
unfoldable pub write_assembly : List Bytes → ℕ → Virt → Written
unfolding assemble_line
write_assembly [] line_count v = if leb block_size line_count then full v [] else ended v
write_assembly (line ∷ file) line_count v = elim (leb block_size line_count || met_eof 100 line) [
  | true ↦ if leb block_size line_count then full v (line ∷ file) else ended v
  | false ↦ elim (assemble_line line) [
    | nothing ↦ write_assembly file line_count v
    | overflow ↦ overflowed
    | one_word w ↦
        write_assembly file (line_count + 1) (store_string_value_at (word_at line_count) w v)
    | two_words w1 w2 ↦ write_assembly file (line_count + 2) (
        store_string_value_at (word_at (line_count + 1)) w2
          (store_string_value_at (word_at line_count) w1 v))
  ]
]

-- A newline is taken off, unless it is the first character.
unfoldable pub data_word : Bytes → Bytes
unfolding chomp cstr
data_word buffer = if leb 2 (length (cstr buffer)) then chomp (cstr buffer) else cstr buffer

-- The loop for DATA_FILE over the last `count` words of the block, from `i` on; the buffer has 16
-- characters. Behind the last line fgets leaves in it what it had, `text`, which is copied before the
-- empty string is; at first it has nothing that C gives a meaning to.
unfoldable pub write_data : ℕ → List Bytes → Option Bytes → ℕ → Virt → Written
unfolding data_word
write_data zero file text i v = full v file
write_data (suc count) [] none i v = overflowed
write_data (suc count) [] (some buffer) i v =
    ended (store_string_value_at (word_at i) [] (store_string_value_at (word_at i) buffer v))
write_data (suc count) (piece ∷ file) text i v =
    let copied = store_string_value_at (word_at i) (data_word piece) v in
    elim (met_eof 16 piece) [
      | true ↦ ended (store_string_value_at (word_at i) [] copied)
      | false ↦ write_data count file (some (data_word piece)) (i + 1) copied
    ]

unfoldable pub write_words : WriteType → List Bytes → Virt → Written
unfolding write_assembly write_data
write_words assembly_code file v = write_assembly file 0 v
write_words data_words file v = write_data block_size file none 0 v

abbrev pub with_virt : Disk → Virt → Disk
with_virt s v = record s { virt = v }

-- The block is written however the loop ends. The result says whether the block is full.
unfoldable pub finish : ℕ → Written → M (Bool × List Bytes)
unfolding write_to_disk
finish block_num (full v rest) =
    edit (λ u. v) >> (write_to_disk temp_block block_num >> pure (true, rest))
finish block_num (ended v) =
    edit (λ u. v) >> (write_to_disk temp_block block_num >> pure (false, []))
finish block_num overflowed = undefined

unfoldable pub write_file_to_disk : List Bytes → ℕ → WriteType → M (Bool × List Bytes)
unfolding finish write_words empty_block
write_file_to_disk fp block_num type s =
    let v = empty_block temp_block s.virt in
    finish block_num (write_words type fp v) (with_virt s v)
