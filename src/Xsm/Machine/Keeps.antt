-- ===== src/Xsm/Machine/Keeps.antt =====
-- Predicates that the machine's functions keep, whether they return or leave by longjmp: one rule
-- for each way to build a command.
pub mod Tokens
pub mod Stack
pub mod Data
pub mod Devices
pub mod Execute
pub mod Rounds
pub mod Words
use myexpos.Prelude.{arith, ◌≡◌, refl, Bool, true, false, if◌then◌else◌}
use myexpos.Prelude.Int.{ℤ}
use myexpos.Prelude.{ℕ, Bytes, Option, none, some}
use myexpos.Xsm.Word.{word_store_integer, word_store_string, word_copy, word_encrypt}
use myexpos.Xsm.State.{
  Machine, Run, ok, raised, unspecified, hang, M, ◌>>=◌, pure, gets, modify, undefined, hangs, Loc,
  peek, poke, get_integer, store_integer, store_string, copy, ExceptionType,
}
use myexpos.Xsm.Machine.Base.{machine_register_exception}
use Prim.Native.String.{String}

-- Whatever the outcome, its state satisfies `P`.
pub data Ends {A : Type 0} (P : Machine → Type 0) : Run A → Type 0 where
  returns : {a : A} {s : Machine} → P s → Ends P (ok a s)
  raises : {s : Machine} → P s → Ends P (raised s)
  open_ended : Ends P unspecified
  never : Ends P hang

pub record Keeps {A : Type 0} (P : Machine → Type 0) (m : M A) : Type 0 where
  pub at : (s : Machine) → P s → Ends P (m s)

-- `t` differs from `s` in no word, nor in the mode.
pub record SameWords (s t : Machine) : Type 0 where
  pub regs : t.regs ≡ s.regs
  pub mem : t.mem ≡ s.mem
  pub disk : t.disk ≡ s.disk
  pub target : t.target ≡ s.target
  pub console : t.cpu.console_op.word ≡ s.cpu.console_op.word
  pub mode : t.cpu.mode ≡ s.cpu.mode

-- `P` allows each of the writes to words that the machine makes at pointers, and does not depend on
-- anything but the words and the mode.
pub record Closed (P : Machine → Type 0) : Type 0 where
  pub frame : (s t : Machine) → SameWords s t → P s → P t
  pub put_integer :
      (l : Loc) (n : ℤ) (s : Machine) → P s → P (poke l (word_store_integer (peek l s) n) s)
  pub put_string :
      (l : Loc) (str : Bytes) (s : Machine) → P s → P (poke l (word_store_string (peek l s) str) s)
  pub put_copy : (d r : Loc) (s : Machine) → P s → P (poke d (word_copy (peek d s) (peek r s)) s)
  pub put_encrypted : (l : Loc) (s : Machine) → P s → P (poke l (word_encrypt (peek l s)) s)

module _ {A : Type 0} {P : Machine → Type 0} where
  pub Keeps-pure : (a : A) → Keeps P (pure a)
  unfolding pure
  Keeps-pure a = record { at = λ s h. returns h }

  pub Keeps-gets : (f : Machine → A) → Keeps P (gets f)
  unfolding gets
  Keeps-gets f = record { at = λ s h. returns h }

  pub Keeps-undefined : Keeps P (undefined {A = A})
  unfolding undefined
  Keeps-undefined = record { at = λ s h. open_ended }

  pub Keeps-hangs : Keeps P (hangs {A = A})
  unfolding hangs
  Keeps-hangs = record { at = λ s h. never }

  pub Keeps-if : (b : Bool) {m n : M A} → Keeps P m → Keeps P n → Keeps P (if b then m else n)
  Keeps-if true h k = h
  Keeps-if false h k = k

module _ {A B : Type 0} {P : Machine → Type 0} where
  Ends-bind :
      (r : Run A) (k : A → M B)
      → Ends P r
      → ((a : A) → Keeps P (k a))
      → Ends P (myexpos.Xsm.State.and_then r k)
  Ends-bind (ok a s) k (returns h) hk = (hk a).at s h
  Ends-bind (raised s) k (raises h) hk = raises h
  Ends-bind unspecified k open_ended hk = open_ended
  Ends-bind hang k never hk = never

  pub Keeps-bind :
      (m : M A) (k : A → M B) → Keeps P m → ((a : A) → Keeps P (k a)) → Keeps P (m >>= k)
  unfolding ◌>>=◌
  Keeps-bind m k hm hk = record { at = λ s h. Ends-bind (m s) k (hm.at s h) hk }

module _ {P : Machine → Type 0} (closed : Closed P) where
  pub modify-Keeps :
      (f : Machine → Machine) → ((s : Machine) → SameWords s (f s)) → Keeps P (modify f)
  unfolding modify
  modify-Keeps f same = record { at = λ s h. returns (closed.frame s (f s) (same s) h) }

  pub exception-Keeps :
      {A : Type 0} (m : String) (t : ExceptionType)
      → Keeps P (machine_register_exception {A = A} m t)
  unfolding machine_register_exception
  exception-Keeps m t = record { at = λ s h. raises (closed.frame s _ (ground arith) h) }

  pub store_integer-Keeps : (l : Loc) (n : ℤ) → Keeps P (store_integer l n)
  unfolding store_integer
  store_integer-Keeps l n = record { at = λ s h. returns (closed.put_integer l n s h) }

  pub store_string-Keeps : (l : Loc) (str : Bytes) → Keeps P (store_string l str)
  unfolding store_string
  store_string-Keeps l str = record { at = λ s h. returns (closed.put_string l str s h) }

  pub copy-Keeps : (d r : Loc) → Keeps P (copy d r)
  unfolding copy
  copy-Keeps d r = record { at = λ s h. returns (closed.put_copy d r s h) }

pub get_integer-Keeps : {P : Machine → Type 0} (l : Loc) → Keeps P (get_integer l)
unfolding get_integer
get_integer-Keeps l = record { at = λ s h. returns h }

pub ruleset keeps_rules =
    (Keeps-pure, Keeps-gets, Keeps-undefined, Keeps-hangs, Keeps-if, Keeps-bind, get_integer-Keeps)
