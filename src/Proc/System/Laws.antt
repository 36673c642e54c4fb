-- ===== src/Proc/System/Laws.antt =====
-- A process that is in the table, read and written by `get_proc` and `update_proc`.
use my_os_proj.Base.{ℕ, ◌≡◌, refl, some, get_elem?, set}
use my_os_proj.Proc.{Proc}
use my_os_proj.Proc.System.{System, ok, get_proc, update_proc}

module _ {F : Type 0} (s : System F) (me : ℕ) (p : Proc) (e : get_elem? s.procs me ≡ some p) where
  pub get_proc-ok : get_proc me s ≡ ok p s
  get_proc-ok = rw (e, get_proc) refl

  pub update_proc-ok :
      (f : Proc → Proc) → update_proc me f s ≡ ok tt (record s { procs = set s.procs me (f p) })
  update_proc-ok f = rw (e, update_proc) refl
