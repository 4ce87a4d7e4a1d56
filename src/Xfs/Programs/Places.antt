-- ===== src/Xfs/Programs/Places.antt =====
-- Loading and deleting a program of the operating system changes its own blocks of the disk file only.
use myexpos.Prelude.{
  ◌≡◌, ◌⊎◌, inl, inr, refl, ◌∙◌, ℕ, zero, suc, ◌+◌, ◌*◌, ◌≤◌, ◌<◌, Bool, true, false, ◌||◌, Option,
  none, some, List, [], Bytes, arith, leb, ltb,
}
use myexpos.Prelude.Int.{ℤ}
use myexpos.Libc.Streams.{fgets_all}
use myexpos.Xfs.Layout.{block_size, temp_block, xfs_success, xfs_failure, xsm_page_size}
use myexpos.Xfs.State.{Virt, Disk, ok, M, ◌>>◌, pure, edit, undefined, write_to_disk, padded}
use myexpos.Xfs.State.Transfer.{write_to_disk-present, flushed-present}
use myexpos.Xfs.VirtualDisk.{empty_block}
use myexpos.Xfs.Labels.{Output, complete, stopped, labels_resolve}
use myexpos.Xfs.WriteFile.{
  WriteType, assembly_code, Written, full, ended, overflowed, write_words, finish,
  write_file_to_disk, with_virt,
}
use myexpos.Xfs.Programs.{
  write_blocks, clear_disk_blocks, load_blocks, unless_full, load_open_code, expanded, load_code,
  load_resolved, load_code_with_labels,
}
use myexpos.Xfs.Keeps.{
  Ends, returns, Keeps, Keeps-pure, Keeps-bind, Keeps-edit, Keeps-undefined, Ends-ok,
}
use myexpos.Xfs.Programs.Opening.{Keeps-with_file}
use myexpos.Xfs.Safety.{padded-flushed}
use mathlib.Core.Path.{subst⁻¹}

-- Outside `count` blocks from `first` on, the disk file has the words `c`.
pub record Outside (first count : ℕ) (c : Virt) (s : Disk) : Type 0 where
  pub present : s.present ≡ true
  pub words :
      (a : ℕ)
      → (ltb a (first * block_size) || leb ((first + count) * block_size) a) ≡ true
      → padded s a ≡ c a

module _ {first count : ℕ} {c : Virt} where
  with_virt-Outside :
      (s : Disk) (v : Virt)
      → Outside first count c s
      → Outside first count c (record s { virt = v })
  unfolding padded
  with_virt-Outside s v h = record { present = h.present; words = h.words }

  edit-Outside : (f : Virt → Virt) → Keeps true (Outside first count c) (edit f)
  edit-Outside f =
      Keeps-edit {P = Outside first count c} f (λ s h. with_virt-Outside s (f s.virt) h)

  write_to_disk-Outside :
      (x b : ℕ)
      → first ≤ b
      → b < first + count
      → Keeps true (Outside first count c) (write_to_disk x b)
  write_to_disk-Outside x b h k = record {
    at = λ s p.
        subst⁻¹ (Ends true (Outside first count c)) (write_to_disk-present x b s p.present) (
          returns (record {
            present = flushed-present x b s p.present;
            words = λ a e. padded-flushed s x b a (ground arith) ∙ p.words a e;
          }));
  }

  write_blocks-Outside :
      (n b : ℕ)
      → first ≤ b
      → b + n ≤ first + count
      → Keeps true (Outside first count c) (write_blocks n b)
  unfolding write_blocks
  write_blocks-Outside zero b h k = Keeps-pure {P = Outside first count c} tt
  write_blocks-Outside (suc n) b h k =
      Keeps-bind {P = Outside first count c} (write_to_disk temp_block b) _
        (write_to_disk-Outside temp_block b h (omega arith))
        (λ _. write_blocks-Outside n (b + 1) (omega arith) (omega arith))

  clear_disk_blocks-Outside :
      (b n : ℕ)
      → first ≤ b
      → b + n ≤ first + count
      → Keeps true (Outside first count c) (clear_disk_blocks b n)
  unfolding clear_disk_blocks
  clear_disk_blocks-Outside b n h k =
      Keeps-bind {P = Outside first count c} (edit (empty_block temp_block)) _
        (edit-Outside (empty_block temp_block))
        (λ _.
          Keeps-bind {P = Outside first count c} (write_blocks n b) _ (write_blocks-Outside n b h k)
            (λ _. Keeps-pure {P = Outside first count c} xfs_success))

  write_last-Outside :
      {A : Type 0} (v : Virt) (b : ℕ) (a : A)
      → first ≤ b
      → b < first + count
      → Keeps true (Outside first count c) (edit (λ u. v) >> (write_to_disk temp_block b >> pure a))
  write_last-Outside v b a h k =
      Keeps-bind {P = Outside first count c} (edit (λ u. v)) _ (edit-Outside (λ u. v)) (λ _.
        Keeps-bind {P = Outside first count c} (write_to_disk temp_block b) _
          (write_to_disk-Outside temp_block b h k) (λ _. Keeps-pure {P = Outside first count c} a))

  finish-Outside :
      (b : ℕ) (w : Written)
      → first ≤ b
      → b < first + count
      → Keeps true (Outside first count c) (finish b w)
  unfolding finish
  finish-Outside b (full v rest) h k = write_last-Outside v b (true, rest) h k
  finish-Outside b (ended v) h k = write_last-Outside v b (false, []) h k
  finish-Outside b overflowed h k = Keeps-undefined {P = Outside first count c} refl

  write_file_to_disk-Outside :
      (fp : List Bytes) (b : ℕ) (type : WriteType)
      → first ≤ b
      → b < first + count
      → Keeps true (Outside first count c) (write_file_to_disk fp b type)
  unfolding write_file_to_disk
  write_file_to_disk-Outside fp b type h k = record {
    at = λ s p.
        (finish-Outside b (write_words type fp (empty_block temp_block s.virt)) h k).at
          (with_virt s (empty_block temp_block s.virt))
          (with_virt-Outside s (empty_block temp_block s.virt) p);
  }

  load_blocks-Outside :
      (n b : ℕ) (r : Bool × List Bytes)
      → first ≤ b
      → b + n ≤ first + count
      → Keeps true (Outside first count c) (load_blocks n b r)
  unfolding load_blocks
  load_blocks-Outside zero b (j, fp) h k = Keeps-pure {P = Outside first count c} j
  load_blocks-Outside (suc n) b (j, fp) h k =
      Keeps-bind {P = Outside first count c} (write_file_to_disk fp b assembly_code) _
        (write_file_to_disk-Outside fp b assembly_code h (omega arith))
        (λ r. go_on (r.0) (load_blocks-Outside n (b + 1) r (omega arith) (omega arith)))
    where
      go_on :
          (j : Bool) {m : M Bool}
          → Keeps true (Outside first count c) m
          → Keeps true (Outside first count c) (elim j [ true ↦ m | false ↦ pure false ])
      go_on true h = h
      go_on false h = Keeps-pure {P = Outside first count c} false

  module _ (b n : ℕ) (low : first ≤ b) (high : b + n ≤ first + count) where
    unless_full-Outside : (j : Bool) → Keeps true (Outside first count c) (unless_full b n j)
    unfolding unless_full
    unless_full-Outside true =
        Keeps-bind {P = Outside first count c} (clear_disk_blocks b n) _
          (clear_disk_blocks-Outside b n low high)
          (λ _. Keeps-pure {P = Outside first count c} xfs_success)
    unless_full-Outside false = Keeps-pure {P = Outside first count c} xfs_success

    load_open_code-Outside :
        (file : Bytes) → Keeps true (Outside first count c) (load_open_code file b n)
    unfolding load_open_code
    load_open_code-Outside file =
        Keeps-bind {P = Outside first count c} (load_blocks n b (false, fgets_all 100 file))
          (unless_full b n) (load_blocks-Outside n b (false, fgets_all 100 file) low high)
          unless_full-Outside

    load_code-Outside : (name : Bytes) → Keeps true (Outside first count c) (load_code name b n)
    unfolding load_code
    load_code-Outside name = record {
      at = λ s p.
          (Keeps-with_file {P = Outside first count c} (expanded name s) (pure xfs_failure)
              (λ file. load_open_code file b n) (Keeps-pure {P = Outside first count c} xfs_failure)
              load_open_code-Outside).at
            s p;
    }

    load_resolved-Outside :
        (o : Option Output) → Keeps true (Outside first count c) (load_resolved o b n)
    unfolding load_resolved
    load_resolved-Outside none = Keeps-undefined {P = Outside first count c} refl
    load_resolved-Outside (some (complete file)) = load_open_code-Outside file
    load_resolved-Outside (some (stopped file)) = load_open_code-Outside file

    pub load_code_with_labels-Outside :
        (infile : Bytes) (page : ℕ)
        → Keeps true (Outside first count c) (load_code_with_labels infile b n page)
    unfolding load_code_with_labels
    load_code_with_labels-Outside infile page = record {
      at = λ s p.
          (Keeps-with_file {P = Outside first count c} (expanded infile s) undefined
              (λ source. load_resolved (labels_resolve source (page * xsm_page_size)) b n)
              (Keeps-undefined {P = Outside first count c} refl)
              (λ source. load_resolved-Outside (labels_resolve source (page * xsm_page_size)))).at
            s p;
    }

  -- A program that is loaded, with or without labels, whether it fits or not, or deleted, changes no
  -- word of the disk file outside its blocks, where the function returns; behind the end of the file the
  -- words count as zero bytes. (The disk file is there.)
  pub program-Outside :
      (name : Bytes) (page : ℕ) (s t : Disk) (r : ℤ)
      → Outside first count c s
      → (load_code name first count s ≡ ok r t)
        ⊎ ((load_code_with_labels name first count page s ≡ ok r t)
            ⊎ (clear_disk_blocks first count s ≡ ok r t))
      → Outside first count c t
  program-Outside name page s t r p (inl e) =
      Ends-ok {P = Outside first count c}
        ((load_code-Outside first count (omega arith) (omega arith) name).at s p) e
  program-Outside name page s t r p (inr (inl e)) =
      Ends-ok {P = Outside first count c}
        ((load_code_with_labels-Outside first count (omega arith) (omega arith) name page).at s p) e
  program-Outside name page s t r p (inr (inr e)) =
      Ends-ok {P = Outside first count c}
        ((clear_disk_blocks-Outside first count (omega arith) (omega arith)).at s p) e
