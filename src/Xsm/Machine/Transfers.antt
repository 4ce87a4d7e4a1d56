-- ===== src/Xsm/Machine/Transfers.antt =====
-- Pages of the memory and blocks of the disk.
use myexpos.Prelude.{◌≡◌, ◌≤◌, ◌<◌, ◌⊎◌, refl, ℕ, ◌+◌, ◌-◌, ◌*◌, arith, some, lt→ltb, ap, ◌∙◌}
use myexpos.Prelude.Int.{pos, wrap32, ◌*ℤ◌}
use myexpos.Xsm.Word.{Word}
use myexpos.Xsm.Memory.{page_size, num_pages, memory_get_word}
use myexpos.Xsm.State.{Machine, ok, ◌>>=◌, ◌>>◌}
use myexpos.Xsm.Machine.Devices.{
  disk_blocks, memory_get_page, disk_get_block, copy_page, disk_read_block, disk_write_page,
  machine_execute_load_do, machine_execute_store_do,
}

page_at : (p : ℕ) → p < num_pages → memory_get_page (pos p) ≡ some (p * page_size)
unfolding memory_get_page memory_get_word ◌*ℤ◌ wrap32
page_at p h = ground arith

block_at : (b : ℕ) → b < disk_blocks → disk_get_block (pos b) ≡ some (b * page_size)
unfolding disk_get_block
block_at b h = rw (lt→ltb b disk_blocks h)

copied :
    (to from : ℕ → Word) (dest src i : ℕ)
    → i < page_size
    → copy_page to dest from src (dest + i) ≡ from (src + i)
unfolding copy_page
copied to from dest src i h =
    let e : src + (dest + i - dest) ≡ src + i = omega arith in ground (arith, ap from e)

untouched :
    (to from : ℕ → Word) (dest src a : ℕ)
    → (a < dest) ⊎ (dest + page_size ≤ a)
    → copy_page to dest from src a ≡ to a
unfolding copy_page
untouched to from dest src a h = ground arith

-- A page of the memory that is stored in a block of the disk and loaded from there into a page,
-- all three in range, comes back word for word; the rest of the memory and the other blocks of the
-- disk are as they were.
pub load-store :
    (s : Machine) (p b q : ℕ)
    → p < num_pages
    → b < disk_blocks
    → q < num_pages
    → (t : Machine) × ((machine_execute_store_do (pos p) (pos b)
            >> machine_execute_load_do (pos q) (pos b))
          s
        ≡ ok tt t)
      × ((i : ℕ) → i < page_size → t.mem (q * page_size + i) ≡ s.mem (p * page_size + i))
      × ((a : ℕ) → (a < q * page_size) ⊎ (q * page_size + page_size ≤ a) → t.mem a ≡ s.mem a)
      × ((a : ℕ) → (a < b * page_size) ⊎ (b * page_size + page_size ≤ a) → t.disk a ≡ s.disk a)
unfolding ◌>>=◌ machine_execute_store_do machine_execute_load_do disk_read_block disk_write_page
load-store s p b q hp hb hq =
    let stored = copy_page s.disk (b * page_size) s.mem (p * page_size) in
    (
      record s { disk = stored; mem = copy_page s.mem (q * page_size) stored (b * page_size) },
      rw (page_at p hp, block_at b hb, page_at q hq) refl,
      λ i h.
          copied s.mem stored (q * page_size) (b * page_size) i h
          ∙ copied s.disk s.mem (b * page_size) (p * page_size) i h,
      λ a h. untouched s.mem stored (q * page_size) (b * page_size) a h,
      λ a h. untouched s.disk s.mem (b * page_size) (p * page_size) a h,
    )
