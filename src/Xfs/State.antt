-- ===== src/Xfs/State.antt =====
-- The state of the XFS interface: the memory copy of the disk (`disk`), the disk file, and the files of
-- the host. xfs-interface/disk.c and exception.c.
pub mod Transfer
use myexpos.Prelude.{
  ℕ, suc, ◌+◌, ◌-◌, ◌*◌, Bool, true, false, ◌&&◌, Option, none, some, List, [], ◌∷◌, Bytes, ltb,
  leb, if◌then◌else◌, replicate,
}
use myexpos.Xsm.Word.{Word, word_size}
use myexpos.Xfs.Layout.{block_size}

-- The words of all blocks, one after the other.
abbrev pub Virt : Type 0
Virt = ℕ → Word

-- `host` has the files of the host, by their paths, and `getenv` the environment. `blocks` is the length of the disk file, in blocks; behind its end there is nothing to read.
pub record Disk : Type 0 where
  pub virt : Virt
  pub present : Bool
  pub blocks : ℕ
  pub content : Virt
  pub host : Bytes → Option Bytes
  pub getenv : Bytes → Option Bytes

-- EXCEPTION_CANT_OPEN_DISK and EXCEPTION_CANT_CREATE_DISK.
pub data DiskException : Type 0 where
  cant_open_disk cant_create_disk : DiskException

-- A function returns, leaves by longjmp, or does what C gives no meaning to.
pub data Result (A : Type 0) : Type 0 where
  ok : A → Disk → Result A
  thrown : DiskException → Disk → Result A
  unspecified : Result A

abbrev pub M : Type 0 → Type 0
M A = Disk → Result A

unfoldable pub pure : {A : Type 0} → A → M A
pure a s = ok a s

unfoldable pub gets : {A : Type 0} → (Disk → A) → M A
gets f s = ok (f s) s

unfoldable pub undefined : {A : Type 0} → M A
undefined s = unspecified

-- A change of the memory copy.
unfoldable pub edit : (Virt → Virt) → M (Unit {0})
edit f s = ok tt (record s { virt = f s.virt })

infixl 5 ◌>>=◌ ◌>>◌
unfoldable pub ◌>>=◌ : {A B : Type 0} → M A → (A → M B) → M B
◌>>=◌ m k s = elim (m s) [ ok a t ↦ k a t | thrown e t ↦ thrown e t | unspecified ↦ unspecified ]

abbrev pub ◌>>◌ : {B : Type 0} → M (Unit {0}) → M B → M B
m >> k = m >>= λ _. k

abbrev pub in_block : ℕ → ℕ → Bool
in_block b a = leb (b * block_size) a && ltb a (b * block_size + block_size)

-- A block of one table copied over a block of another.
unfoldable pub copy_block : Virt → ℕ → Virt → ℕ → Virt
copy_block to dest from src a =
    if in_block dest a then from (src * block_size + (a - dest * block_size)) else to a

-- openDiskFile: the disk file has to be there.
unfoldable pub open_disk_file : M (Unit {0})
open_disk_file s = if s.present then ok tt s else thrown cant_open_disk s

-- A block of the file in the memory copy; a read behind the end of the file changes nothing.
unfoldable pub fetched : ℕ → ℕ → Disk → Disk
unfolding copy_block
fetched virt_block file_block s =
    if ltb file_block s.blocks
    then record s { virt = copy_block s.virt virt_block s.content file_block }
    else s

unfoldable pub read_from_disk : ℕ → ℕ → M (Unit {0})
unfolding open_disk_file fetched
read_from_disk virt_block file_block = do
  open_disk_file
  λ s. ok tt (fetched virt_block file_block s)

-- What the file holds, with zero bytes behind its end, which a write further on leaves as a gap.
unfoldable pub padded : Disk → Virt
padded s a = if ltb a (s.blocks * block_size) then s.content a else replicate word_size 0

unfoldable pub flushed : ℕ → ℕ → Disk → Disk
unfolding copy_block padded
flushed virt_block file_block s = record s {
  content = copy_block (padded s) file_block s.virt virt_block;
  blocks = if ltb file_block s.blocks then s.blocks else suc file_block;
}

unfoldable pub write_to_disk : ℕ → ℕ → M (Unit {0})
unfolding open_disk_file flushed
write_to_disk virt_block file_block = do
  open_disk_file
  λ s. ok tt (flushed virt_block file_block s)

-- createDiskFile(DISK_NO_FORMAT), the only way in which it is called: a file that is there stays as it
-- is. The host lets the file be made, or else the exception is thrown.
unfoldable pub create_disk_file : Bool → M (Unit {0})
create_disk_file allowed s =
    if s.present
    then ok tt s
    else if allowed
    then ok tt (record s { present = true; blocks = 0 })
    else thrown cant_create_disk s

unfoldable pub disk_check_file_exists : M (Unit {0})
unfolding open_disk_file
disk_check_file_exists = open_disk_file
