-- ===== src/Xfs/Safety/Writes.antt =====
-- What writeFileToDisk changes: the temporary block and the word behind it in the memory copy, and one
-- block of the disk.
use myexpos.Prelude.{
  ◌≡◌, refl, ℕ, zero, suc, ◌+◌, Bool, true, false, ◌||◌, List, [], ◌∷◌, Bytes, arith, leb,
  if◌then◌else◌,
}
use myexpos.Prelude.Int.{ℤ, pos, negsuc}
use myexpos.Libc.Streams.{met_eof}
use myexpos.Xfs.Layout.{block_size, temp_block}
use myexpos.Xfs.State.{Virt, Disk, M, ok, ◌>>=◌, ◌>>◌, pure, edit, undefined, write_to_disk}
use myexpos.Xfs.VirtualDisk.{store_string_value_at, empty_block}
use myexpos.Xfs.Assembly.{Assembled, nothing, overflow, one_word, two_words, assemble_line}
use myexpos.Xfs.WriteFile.{
  WriteType, assembly_code, data_words, Written, full, ended, overflowed, word_at, write_assembly,
  write_data, write_words, finish, write_file_to_disk, data_word, with_virt,
}
use myexpos.Xfs.Files.{write_all}
use myexpos.Xfs.Keeps.{Keeps, Keeps-pure, Keeps-bind, Keeps-undefined}
use myexpos.Xfs.Safety.{
  Sound, Safe, is_block, is_open_block, Sound-string_elsewhere, Sound-empty_block, Safe-edit,
  Safe-write_to_disk,
}
use myexpos.Prelude.{All, Option, none, some}

data Sounds : Written → Type 0 where
  full_sound : {v : Virt} {rest : List Bytes} → Sound v → Sounds (full v rest)
  ended_sound : {v : Virt} → Sound v → Sounds (ended v)
  overflow_sound : Sounds overflowed

string_at : (k : ℕ) (w : Bytes) (v : Virt) → Sound v → Sound (store_string_value_at (word_at k) w v)
string_at k w v s = Sound-string_elsewhere v (word_at k) w (ground arith) s

stop_here :
    (b : Bool) (v : Virt) (rest : List Bytes)
    → Sound v
    → Sounds (if b then full v rest else ended v)
stop_here true v rest s = full_sound s
stop_here false v rest s = ended_sound s

assembly-Sounds :
    (file : List Bytes) (line_count : ℕ) (v : Virt)
    → Sound v
    → Sounds (write_assembly file line_count v)
unfolding write_assembly
assembly-Sounds [] line_count v s = stop_here (leb block_size line_count) v [] s
assembly-Sounds (line ∷ file) line_count v s =
    step (leb block_size line_count || met_eof 100 line) (assemble_line line)
      (λ k w h. assembly-Sounds file k w h)
  where
    step :
        (b : Bool) (a : Assembled)
        → ((k : ℕ) (w : Virt) → Sound w → Sounds (write_assembly file k w))
        → Sounds (elim b [
          | true ↦ if leb block_size line_count then full v (line ∷ file) else ended v
          | false ↦ elim a [
            | nothing ↦ write_assembly file line_count v
            | overflow ↦ overflowed
            | one_word w ↦
                write_assembly file
                  (line_count + 1)
                  (store_string_value_at (word_at line_count) w v)
            | two_words w1 w2 ↦ write_assembly file (line_count + 2) (
                store_string_value_at
                  (word_at (line_count + 1))
                  w2
                  (store_string_value_at (word_at line_count) w1 v))
          ]
        ])
    step true a rest = stop_here (leb block_size line_count) v (line ∷ file) s
    step false nothing rest = rest line_count v s
    step false overflow rest = overflow_sound
    step false (one_word w) rest = rest (line_count + 1) _ (string_at line_count w v s)
    step false (two_words w1 w2) rest =
        rest (line_count + 2) _ (string_at (line_count + 1) w2 _ (string_at line_count w1 v s))

data-Sounds :
    (count : ℕ) (file : List Bytes) (text : Option Bytes) (i : ℕ) (v : Virt)
    → Sound v
    → Sounds (write_data count file text i v)
unfolding write_data
data-Sounds zero file text i v s = full_sound s
data-Sounds (suc count) [] none i v s = overflow_sound
data-Sounds (suc count) [] (some buffer) i v s =
    ended_sound (string_at i [] _ (string_at i buffer v s))
data-Sounds (suc count) (piece ∷ file) text i v s =
    let copied = store_string_value_at (word_at i) (data_word piece) v in
    step (met_eof 16 piece) (
      data-Sounds count file (some (data_word piece)) (i + 1) copied
        (string_at i (data_word piece) v s))
  where
    step :
        (b : Bool)
        → Sounds (
            write_data count file
              (some (data_word piece))
              (i + 1)
              (store_string_value_at (word_at i) (data_word piece) v))
        → Sounds (elim b [
          | true ↦ ended (
              store_string_value_at
                (word_at i)
                []
                (store_string_value_at (word_at i) (data_word piece) v))
          | false ↦
              write_data count file
                (some (data_word piece))
                (i + 1)
                (store_string_value_at (word_at i) (data_word piece) v)
        ])
    step true rest = ended_sound (string_at i [] _ (string_at i (data_word piece) v s))
    step false rest = rest

words-Sounds :
    (type : WriteType) (file : List Bytes) (v : Virt) → Sound v → Sounds (write_words type file v)
unfolding write_words
words-Sounds assembly_code file v s = assembly-Sounds file 0 v s
words-Sounds data_words file v s = data-Sounds block_size file none 0 v s

module _ {c : Virt} where
  write_last :
      {A : Type 0} (v : Virt) (b : ℕ) (a : A)
      → Sound v
      → is_open_block b ≡ true
      → Keeps true (Safe c) (edit (λ u. v) >> (write_to_disk temp_block b >> pure a))
  write_last v b a h k =
      Keeps-bind {P = Safe c} (edit (λ u. v)) _ (Safe-edit (λ u. v) (λ u _. h)) (λ _.
        Keeps-bind {P = Safe c} (write_to_disk temp_block b) _ (Safe-write_to_disk temp_block b k)
          (λ _. Keeps-pure {P = Safe c} a))

  finish-Safe :
      (b : ℕ) (w : Written) → Sounds w → is_open_block b ≡ true → Keeps true (Safe c) (finish b w)
  unfolding finish
  finish-Safe b (full v rest) (full_sound h) k = write_last v b (true, rest) h k
  finish-Safe b (ended v) (ended_sound h) k = write_last v b (false, []) h k
  finish-Safe b overflowed overflow_sound k = Keeps-undefined {P = Safe c} refl

  with_virt-Safe : (s : Disk) (v : Virt) → Sound v → Safe c s → Safe c (with_virt s v)
  unfolding myexpos.Xfs.State.padded
  with_virt-Safe s v h k = record { present = k.present; sound = h; programs = k.programs }

  pub write_file_to_disk-Safe :
      (fp : List Bytes) (b : ℕ) (type : WriteType)
      → is_open_block b ≡ true
      → Keeps true (Safe c) (write_file_to_disk fp b type)
  unfolding write_file_to_disk
  write_file_to_disk-Safe fp b type k = record {
    at = λ s h.
        (let e = Sound-empty_block s.virt h.sound in
          (finish-Safe b (write_words type fp (empty_block temp_block s.virt))
              (words-Sounds type fp (empty_block temp_block s.virt) e) k).at
            (with_virt s (empty_block temp_block s.virt))
            (with_virt-Safe s (empty_block temp_block s.virt) e h));
  }

  -- All blocks of a file are written.
  pub write_all-Safe :
      (type : WriteType) (blocks : List ℤ) (fp : List Bytes)
      → All (λ n. is_block n ≡ true) blocks
      → Keeps true (Safe c) (write_all type blocks fp)
  unfolding write_all
  write_all-Safe type [] fp h = Keeps-pure {P = Safe c} tt
  write_all-Safe type (pos b ∷ blocks) fp (hb, h) =
      Keeps-bind {P = Safe c} (write_file_to_disk fp b type) (λ r. write_all type blocks (r.1))
        (write_file_to_disk-Safe fp b type (ground arith)) (λ r. write_all-Safe type blocks (r.1) h)
  write_all-Safe type (negsuc n ∷ blocks) fp h = Keeps-undefined {P = Safe c} refl
