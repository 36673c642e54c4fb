-- ===== src/Proc/System.antt =====
-- The state that the process functions work on, and the monad over it. The file system, whose code
-- is not in the repository, is a type of states with the operations that proc.c calls.
pub mod Laws
use my_os_proj.Base.{ℕ, Option, none, some, get_elem?, set}
use my_os_proj.Kernel.{Panic, Kernel, Run, Cmd}
use my_os_proj.Proc.{Proc, Table}

pub record Files (F : Type 0) : Type 0 where
  pub filedup : ℕ → F → ℕ × F
  pub fileclose : ℕ → F → F
  pub idup : ℕ → F → ℕ × F
  pub iput : ℕ → F → F
  pub begin_op : F → F
  pub end_op : F → F
  pub namei_root : F → ℕ × F

pub record System (F : Type 0) : Type 0 where
  pub kernel : Kernel
  pub procs : Table
  pub nextpid : ℕ
  pub initproc : Option ℕ
  pub files : F

pub data Out (F A : Type 0) : Type 0 where
  ok : A → System F → Out F A
  panic : Panic → Out F A
  out_of_fuel : Out F A
  -- The process has become a ZOMBIE and never runs again.
  exited : System F → Out F A

abbrev pub Op : Type 0 → Type 0 → Type 0
Op F A = System F → Out F A

abbrev pub pure : {F A : Type 0} → A → Op F A
pure a s = ok a s

abbrev pub fail : {F A : Type 0} → Panic → Op F A
fail e s = panic e

abbrev pub and_then : {F A B : Type 0} → Out F A → (A → Op F B) → Out F B
and_then (ok a s) f = f a s
and_then (panic e) f = panic e
and_then out_of_fuel f = out_of_fuel
and_then (exited s) f = exited s

infixl 5 ◌>>=◌ ◌>>◌
abbrev pub ◌>>=◌ : {F A B : Type 0} → Op F A → (A → Op F B) → Op F B
◌>>=◌ m f s = and_then (m s) f

abbrev pub ◌>>◌ : {F B : Type 0} → Op F (Unit {0}) → Op F B → Op F B
◌>>◌ m n s = and_then (m s) (λ _. n)

abbrev pub lift_run : {F A : Type 0} → System F → Run A → Out F A
lift_run s (Run.ok a k) = ok a (record s { kernel = k })
lift_run s (Run.panic e) = panic e
lift_run s Run.out_of_fuel = out_of_fuel

-- A command of the memory management.
abbrev pub lift : {F A : Type 0} → Cmd A → Op F A
lift c s = lift_run s (c s.kernel)

-- The process at an index. A dangling index, which the table's pointers never are, is a fault.
abbrev pub get_proc : {F : Type 0} → ℕ → Op F Proc
get_proc i s = elim (get_elem? s.procs i) [ none ↦ panic Panic.null_pointer | some p ↦ ok p s ]

abbrev pub update_proc : {F : Type 0} → ℕ → (Proc → Proc) → Op F (Unit {0})
update_proc i f s = elim (get_elem? s.procs i) [
  | none ↦ panic Panic.null_pointer
  | some p ↦ ok tt (record s { procs = set s.procs i (f p) })
]

abbrev pub update_procs : {F : Type 0} → (Table → Table) → Op F (Unit {0})
update_procs f s = ok tt (record s { procs = f s.procs })

-- A call that changes the file system, and one that also returns a value.
abbrev pub update_files : {F : Type 0} → (F → F) → Op F (Unit {0})
update_files f s = ok tt (record s { files = f s.files })

abbrev pub with_files : {F A : Type 0} → (F → A × F) → Op F A
with_files f s = let (a, g) = f s.files in ok a (record s { files = g })
