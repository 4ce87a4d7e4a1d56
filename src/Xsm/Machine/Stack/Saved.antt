-- ===== src/Xsm/Machine/Stack/Saved.antt =====
-- What BACKUP saves, RESTORE brings back; and what PUSH saves, POP does.
use myexpos.Prelude.{ℕ, zero, suc, ◌+◌, ◌≤◌, ◌<◌, ◌≡◌, ◌≢◌, ◌⊎◌, inl, inr, refl, ap, ◌∙◌, arith}
use native.Mathlib.Decide.{dec_lt}
use native.Mathlib.Nat.{add-zero}
use myexpos.Xsm.Word.{Word}
use myexpos.Xsm.Registers.{sp, bp, reg_count}
use myexpos.Xsm.Memory.{memory_size}
use myexpos.Xsm.State.{Machine, ok, in_reg, ◌>>=◌, ◌>>◌}
use myexpos.Xsm.Machine.Stack.{
  machine_push_do, machine_pop_do, push_registers, pop_registers, machine_execute_backup,
  machine_execute_restore,
}
use myexpos.Xsm.Machine.Stack.Kernel.{
  AtTop, pushed, popped, push-ok, pop-ok, AfterPush, pushed-AfterPush, AfterPop, popped-AfterPop,
}

-- `count` registers from `ireg` on are saved above `top`, and nothing else changes but SP.
record Saved (s t : Machine) (top count ireg : ℕ) : Type 0 where
  at_top : AtTop t (top + count)
  regs : (r : ℕ) → r ≢ sp → t.regs r ≡ s.regs r
  saved : (k : ℕ) → k < count → t.mem (suc (top + k)) ≡ s.regs (ireg + k)
  below : (a : ℕ) → a ≤ top → t.mem a ≡ s.mem a

Saved-step :
    {s t : Machine} {count : ℕ} (p : Machine) (top ireg : ℕ)
    → AfterPush s p top (s.regs ireg)
    → Saved p t (suc top) count (ireg + 1)
    → ireg + suc count ≤ reg_count
    → (k : ℕ) → k < suc count
    → t.mem (suc (top + k)) ≡ s.regs (ireg + k)
Saved-step {s} {t} {count} p top ireg one rest h zero lt =
    let e : top + 0 ≡ top = omega arith in
    let f : ireg + 0 ≡ ireg = omega arith in
    rw (e, f) (rest.below (suc top) (omega arith) ∙ one.word)
Saved-step {s} {t} {count} p top ireg one rest h (suc k) lt =
    let e : top + suc k ≡ suc top + k = omega arith in
    let f : ireg + suc k ≡ ireg + 1 + k = omega arith in
    rw (e, f) (rest.saved k (omega arith) ∙ one.regs (ireg + 1 + k) (omega arith))

push_registers-Saved :
    (count ireg top : ℕ) (s : Machine)
    → AtTop s top
    → top + count < memory_size
    → ireg + count ≤ reg_count
    → (t : Machine) × (push_registers count ireg s ≡ ok tt t) × Saved s t top count ireg
unfolding ◌>>=◌ push_registers
push_registers-Saved zero ireg top s at h k = (
  s,
  refl,
  record {
    at_top = (let e : top + 0 ≡ top = omega arith in rw e at);
    regs = λ r d. refl;
    saved = λ j lt. elim lt [ ];
    below = λ a d. refl;
  },
)
push_registers-Saved (suc count) ireg top s at h k =
    let one = pushed-AfterPush s top ireg at (omega arith) (omega arith) in
    let (t, e, rest) =
      push_registers-Saved count (ireg + 1) (suc top) (pushed s top (in_reg ireg)) one.at_top
        (omega arith) (omega arith) in
    (
      t,
      rw (push-ok s top (in_reg ireg) at (omega arith)) e,
      record {
        at_top = (let p : top + suc count ≡ suc top + count = omega arith in rw p rest.at_top);
        regs = λ r d. rest.regs r d ∙ one.regs r d;
        saved = Saved-step (pushed s top (in_reg ireg)) top ireg one rest k;
        below = λ a d. rest.below a (omega arith) ∙ one.others a (omega arith);
      },
    )

-- The registers below `count` have the words above `top`, and SP is back at `top`.
record Restored (s t : Machine) (top count : ℕ) : Type 0 where
  at_top : AtTop t top
  restored : (k : ℕ) → k < count → t.regs k ≡ s.mem (suc (top + k))
  others : (q : ℕ) → q ≢ sp → count ≤ q → t.regs q ≡ s.regs q
  mem : (a : ℕ) → t.mem a ≡ s.mem a

Restored-step :
    {s p t : Machine} {top ireg : ℕ}
    → AfterPop s p (top + ireg) ireg
    → Restored p t top ireg
    → suc ireg ≤ reg_count
    → (k : ℕ) → k < suc ireg
    → t.regs k ≡ s.mem (suc (top + k))
Restored-step {s} {p} {t} {top} {ireg} one rest h k lt = elim (dec_lt k ireg) [
  | yes b ↦ rest.restored k b ∙ one.mem (suc (top + k))
  | no b ↦
      (let e : k ≡ ireg = omega arith in
        rw e (rest.others ireg (omega arith) (omega arith) ∙ one.word))
]

pop_registers-Restored :
    (count top : ℕ) (s : Machine)
    → AtTop s (top + count)
    → top + count < memory_size
    → count ≤ reg_count
    → (t : Machine) × (pop_registers count s ≡ ok tt t) × Restored s t top count
unfolding ◌>>=◌ pop_registers
pop_registers-Restored zero top s at h k = (
  s,
  refl,
  record {
    at_top = (let e : top ≡ top + 0 = omega arith in rw e at);
    restored = λ j lt. elim lt [ ];
    others = λ q d e. refl;
    mem = λ a. refl;
  },
)
pop_registers-Restored (suc ireg) top s at h k =
    let e : top + suc ireg ≡ suc (top + ireg) = omega arith in
    let at' : AtTop s (suc (top + ireg)) = rw (← e) at in
    let one = popped-AfterPop s (top + ireg) ireg at' (omega arith) (omega arith) in
    let (t, run, rest) =
      pop_registers-Restored ireg top (popped s (top + ireg) (in_reg ireg)) one.at_top (omega arith)
        (omega arith) in
    (
      t,
      rw (pop-ok s (top + ireg) (in_reg ireg) at' (omega arith)) run,
      record {
        at_top = rest.at_top;
        restored = Restored-step one rest k;
        others = λ q d b. rest.others q d (omega arith) ∙ one.others q d (omega arith);
        mem = λ a. rest.mem a ∙ one.mem a;
      },
    )

-- A register that BACKUP saves: R0 to R19, and BP.
abbrev pub IsSaved : ℕ → Type 0
IsSaved r = (r < reg_count) ⊎ (r ≡ bp)

-- The cells above SP that BACKUP fills.
abbrev pub saved_cells : ℕ
saved_cells = suc reg_count

abbrev pub SavedIn : (ℕ → Word) → Machine → ℕ → Type 0
SavedIn mem s top =
    (mem (suc top) ≡ s.regs bp) × ((k : ℕ) → k < reg_count → mem (suc (suc top + k)) ≡ s.regs k)

-- From kernel mode with room on the stack BACKUP runs to its end: SP is 21 words higher, and above
-- its old place stand BP and then R0 to R19.
pub backup-SavedIn :
    (s : Machine) (top : ℕ)
    → AtTop s top
    → top + saved_cells < memory_size
    → (t : Machine) × (machine_execute_backup s ≡ ok tt t)
      × AtTop t (top + saved_cells)
      × SavedIn t.mem s top
unfolding ◌>>=◌ machine_execute_backup
backup-SavedIn s top at h =
    let one = pushed-AfterPush s top bp at (omega arith) (omega arith) in
    let (t, run, rest) =
      push_registers-Saved reg_count 0 (suc top) (pushed s top (in_reg bp)) one.at_top (omega arith)
        (omega arith) in
    let e : top + saved_cells ≡ suc top + reg_count = omega arith in
    (
      t,
      rw (push-ok s top (in_reg bp) at (omega arith)) run,
      rw e rest.at_top,
      (
        rest.below (suc top) (omega arith) ∙ one.word,
        λ k lt. rest.saved k lt ∙ one.regs (0 + k) (omega arith) ∙ ap s.regs (omega arith),
      ),
    )

Restored-regs :
    {u p v : Machine} (s : Machine) (top : ℕ)
    → Restored u p (suc top) reg_count
    → AfterPop p v top bp
    → SavedIn u.mem s top
    → (r : ℕ) → IsSaved r
    → v.regs r ≡ s.regs r
Restored-regs s top some_regs one saved r (inl lt) =
    one.others r (omega arith) (omega arith) ∙ some_regs.restored r lt ∙ saved.1 r lt
Restored-regs {u} {p} s top some_regs one saved r (inr e) =
    rw e (one.word ∙ some_regs.mem (suc top) ∙ saved.0)

restore_from :
    (u s : Machine) (top : ℕ)
    → AtTop u (top + saved_cells)
    → top + saved_cells < memory_size
    → SavedIn u.mem s top
    → (v : Machine) × (machine_execute_restore u ≡ ok tt v)
      × AtTop v top
      × ((r : ℕ) → IsSaved r → v.regs r ≡ s.regs r)
unfolding ◌>>=◌ machine_execute_restore
restore_from u s top at h saved =
    let e : top + saved_cells ≡ suc top + reg_count = omega arith in
    let at' : AtTop u (suc top + reg_count) = rw (← e) at in
    let (p, run, some_regs) =
      pop_registers-Restored reg_count (suc top) u at' (omega arith) (omega arith) in
    let one = popped-AfterPop p top bp some_regs.at_top (omega arith) (omega arith) in
    (
      popped p top (in_reg bp),
      rw run (pop-ok p top (in_reg bp) some_regs.at_top (omega arith)),
      one.at_top,
      Restored-regs s top some_regs one saved,
    )

SavedIn-cells :
    (mem mem' : ℕ → Word) (s : Machine) (top : ℕ)
    → SavedIn mem s top
    → ((k : ℕ) → k < saved_cells → mem' (suc (top + k)) ≡ mem (suc (top + k)))
    → SavedIn mem' s top
SavedIn-cells mem mem' s top saved same = (
  rw add-zero at (same 0 (omega arith)) ∙ saved.0,
  λ k lt.
      let e : suc (top + suc k) ≡ suc (suc top + k) = omega arith in
      rw e at (same (suc k) (omega arith)) ∙ saved.1 k lt,
)

-- After BACKUP in kernel mode, RESTORE runs to its end in any later state that is in kernel mode, has
-- the SP that BACKUP left and holds the saved cells unchanged; it puts SP back where it was before
-- BACKUP, and BP and R0 to R19 to what they were then.
pub restore-backup :
    (s t u : Machine) (top : ℕ)
    → AtTop s top
    → top + saved_cells < memory_size
    → machine_execute_backup s ≡ ok tt t
    → AtTop u (top + saved_cells)
    → ((k : ℕ) → k < saved_cells → u.mem (suc (top + k)) ≡ t.mem (suc (top + k)))
    → (v : Machine) × (machine_execute_restore u ≡ ok tt v)
      × AtTop v top
      × ((r : ℕ) → IsSaved r → v.regs r ≡ s.regs r)
restore-backup s t u top at h ran at' same =
    let (t', ran', _, saved) = backup-SavedIn s top at h in
    let e : t' ≡ t = cc in
    restore_from u s top at' h (SavedIn-cells t.mem u.mem s top (rw e at saved) same)

-- In kernel mode, with room on the stack, a word that PUSH saves from a register other than SP is
-- what the next POP loads into a register other than SP; the value of SP, the other registers and
-- the memory, but for the word above SP, are as before.
pub pop-push :
    (s : Machine) (top r q : ℕ)
    → AtTop s top
    → suc top < memory_size
    → r ≢ sp
    → q ≢ sp
    → (t : Machine) × ((machine_push_do (in_reg r) >> machine_pop_do (in_reg q)) s ≡ ok tt t)
      × AtTop t top
      × (t.regs q ≡ s.regs r)
      × ((o : ℕ) → o ≢ sp → o ≢ q → t.regs o ≡ s.regs o)
      × ((a : ℕ) → a ≢ suc top → t.mem a ≡ s.mem a)
unfolding ◌>>=◌
pop-push s top r q at h nr nq =
    let p = pushed s top (in_reg r) in
    let one = pushed-AfterPush s top r at h nr in
    let two = popped-AfterPop p top q one.at_top h nq in
    (
      popped p top (in_reg q),
      rw (push-ok s top (in_reg r) at h) (pop-ok p top (in_reg q) one.at_top h),
      two.at_top,
      two.word ∙ one.word,
      λ o a b. two.others o a b ∙ one.regs o a,
      λ a d. two.mem a ∙ one.others a d,
    )
