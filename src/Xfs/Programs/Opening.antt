-- ===== src/Xfs/Programs/Opening.antt =====
-- A file of the host is opened.
use myexpos.Prelude.{refl, true, Option, none, some, Bytes}
use myexpos.Xfs.State.{Disk, M}
use myexpos.Xfs.Programs.{with_file}
use myexpos.Xfs.Keeps.{Ends, Keeps, Keeps-undefined}

pub Keeps-with_file :
    {A : Type 0} {P : Disk → Type 0} (path : Option Bytes) (missing : M A) (k : Bytes → M A)
    → Keeps true P missing
    → ((file : Bytes) → Keeps true P (k file))
    → Keeps true P (with_file path missing k)
Keeps-with_file {P = P} none missing k hm hk = record {
  at = λ s p. (Keeps-undefined {P = P} refl).at s p;
}
Keeps-with_file {P = P} (some path) missing k hm hk = record {
  at = λ s p. opened s p (s.host path);
}
  where
    opened :
        (s : Disk)
        → P s
        → (o : Option Bytes) → Ends true P (elim o [ none ↦ missing s | some file ↦ k file s ])
    opened s p none = hm.at s p
    opened s p (some file) = (hk file).at s p
