-- ===== src/Xfs/Keeps.antt =====
-- Predicates on the disk that its functions keep: one rule for each way to build a function.
use myexpos.Prelude.{◌≡◌, arith, Bool, true, false, if◌then◌else◌}
use mathlib.Core.Path.{subst}
use myexpos.Xfs.State.{
  Virt, Disk, Result, ok, thrown, unspecified, M, pure, gets, edit, undefined, ◌>>=◌,
}

-- The function returns, and the state satisfies `P`. It may do what C gives no meaning to only where
-- `partial` allows it; it never leaves by longjmp.
pub data Ends {A : Type 0} (partial : Bool) (P : Disk → Type 0) : Result A → Type 0 where
  returns : {a : A} {s : Disk} → P s → Ends partial P (ok a s)
  open_ended : partial ≡ true → Ends partial P unspecified

pub record Keeps {A : Type 0} (partial : Bool) (P : Disk → Type 0) (m : M A) : Type 0 where
  pub at : (s : Disk) → P s → Ends partial P (m s)

module _ {A : Type 0} {partial : Bool} {P : Disk → Type 0} where
  pub Keeps-pure : (a : A) → Keeps partial P (pure a)
  unfolding pure
  Keeps-pure a = record { at = λ s h. returns h }

  pub Keeps-undefined : partial ≡ true → Keeps partial P (undefined {A = A})
  unfolding undefined
  Keeps-undefined e = record { at = λ s h. open_ended e }

  pub Keeps-if :
      (b : Bool) {m n : M A}
      → Keeps partial P m
      → Keeps partial P n
      → Keeps partial P (if b then m else n)
  Keeps-if true h k = h
  Keeps-if false h k = k

module _ {partial : Bool} {P : Disk → Type 0} where
  pub Keeps-edit :
      (f : Virt → Virt)
      → ((s : Disk) → P s → P (record s { virt = f s.virt }))
      → Keeps partial P (edit f)
  unfolding edit
  Keeps-edit f h = record { at = λ s hs. returns (h s hs) }

module _ {A B : Type 0} {partial : Bool} {P : Disk → Type 0} where
  Ends-bind :
      (m : M A) (k : A → M B) (s : Disk)
      → Ends partial P (m s)
      → ((a : A) → Keeps partial P (k a))
      → Ends partial P ((m >>= k) s)
  unfolding ◌>>=◌
  Ends-bind m k s h hk = after (m s) h
    where
      after :
          (r : Result A)
          → Ends partial P r
          → Ends partial P
              (elim r [ ok a t ↦ k a t | thrown e t ↦ thrown e t | unspecified ↦ unspecified ])
      after (ok a t) (returns p) = (hk a).at t p
      after (thrown e t) r = elim r [ ]
      after unspecified (open_ended e) = open_ended e

  pub Keeps-bind :
      (m : M A) (k : A → M B)
      → Keeps partial P m
      → ((a : A) → Keeps partial P (k a))
      → Keeps partial P (m >>= k)
  Keeps-bind m k hm hk = record { at = λ s h. Ends-bind m k s (hm.at s h) hk }

  -- What is read of the state decides how it goes on.
  pub Keeps-gets :
      (f : Disk → A) (k : A → M B)
      → ((s : Disk) → P s → Ends partial P (k (f s) s))
      → Keeps partial P (gets f >>= k)
  unfolding gets ◌>>=◌
  Keeps-gets f k h = record { at = h }

-- What a function that returned has kept.
pub Ends-ok :
    {P : Disk → Type 0} {A : Type 0} {partial : Bool} {r : Result A} {a : A} {u : Disk}
    → Ends partial P r
    → r ≡ ok a u
    → P u
Ends-ok {P} (returns {s = s} p) h = subst P (ground (arith, h)) p
Ends-ok (open_ended e) h = absurd (ground arith)
