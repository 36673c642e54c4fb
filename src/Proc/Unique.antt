-- ===== src/Proc/Unique.antt =====
-- No two processes have the same pid: every function of the process code keeps that.
use my_os_proj.Base.{
  ℕ, ◌+◌, ◌^◌, ◌%◌, ◌<◌, ◌≤◌, ◌≡◌, inl, inr, refl, sym, subst, arith, not, ◌==◌, List, [], ◌∷◌, set,
  Option-cases,
}
use my_os_proj.Kernel.{Platform, Cmd}
use my_os_proj.Proc.{Proc, Table}
use my_os_proj.Proc.Life
use my_os_proj.Proc.Life.{
  cleared, free_page, freeproc, give_up, found, find_unused, allocproc, growproc, dup_files, fork,
}
use my_os_proj.Proc.Pids.{pids, Pids, get-pids, pids-set, pids-set_same, Pids-reset, Pids-next}
use my_os_proj.Proc.System.{System, Files, update_proc, with_files, lift}
use my_os_proj.Proc.Keeps.{
  Ends, Keeps, Keeps-bind, Keeps-then, Keeps-if, Keeps-pure, Keeps-get_proc, Keeps-lift,
  Keeps-update_proc, Keeps-with_files, Moves, Returns, Moves-bind, Moves-then, Moves-update_proc,
  Moves-after, Moves-get_proc, Keeps-option,
}

-- The pids of the table are right, and at most `bound` have been handed out.
pub record PidsOk {F : Type 0} (bound : ℕ) (s : System F) : Type 0 where
  pub pids_ok : Pids s.nextpid (pids s.procs)
  pub bounded : s.nextpid ≤ bound

module _ {F : Type 0} (b : ℕ) where
  -- A table with the same pids.
  pub PidsOk-procs :
      (s : System F) (ps : Table)
      → pids ps ≡ pids s.procs
      → PidsOk b s
      → PidsOk b (record s { procs = ps })
  PidsOk-procs s ps same h = record {
    pids_ok = subst (λ ns. Pids s.nextpid ns) (sym same) h.pids_ok;
    bounded = h.bounded;
  }

  pub lift-Keeps : {A : Type 0} (c : Cmd A) → Keeps {F = F} (PidsOk b) (lift c)
  lift-Keeps c = Keeps-lift c (λ s k h. record { pids_ok = h.pids_ok; bounded = h.bounded })

  -- A change of a process that is not its pid.
  pub field-Keeps :
      (i : ℕ) (f : Proc → Proc)
      → ((p : Proc) → (f p).pid ≡ p.pid)
      → Keeps {F = F} (PidsOk b) (update_proc i f)
  field-Keeps i f same =
      Keeps-update_proc (λ s p e h. PidsOk-procs s _ (pids-set_same s.procs i p (f p) e (same p)) h)

  pub clear-Keeps : (i : ℕ) → Keeps {F = F} (PidsOk b) (update_proc i cleared)
  unfolding cleared
  clear-Keeps i = Keeps-update_proc (λ s p e h. record {
    pids_ok =
        subst (λ ns. Pids s.nextpid ns) (sym (pids-set s.procs i (cleared p)))
          (Pids-reset s.nextpid i p.pid (pids s.procs) (get-pids s.procs i p e) h.pids_ok);
    bounded = h.bounded;
  })

module _ {F : Type 0} (P : Platform) (fs : Files F) (b : ℕ) where
  free_page-Keeps : (pa : ℕ) → Keeps {F = F} (PidsOk b) (free_page P fs pa)
  unfolding free_page
  free_page-Keeps pa = Keeps-if (not (pa == 0)) (lift-Keeps b _) Keeps-pure

  pub freeproc-Keeps : (i : ℕ) → Keeps (PidsOk b) (freeproc P fs i)
  unfolding freeproc
  freeproc-Keeps i = Keeps-bind Keeps-get_proc (λ p. Keeps-then (free_page-Keeps p.trapframe) (
      Keeps-then (field-Keeps b i _ (λ q. refl)) (
        Keeps-then (free_page-Keeps p.mypid) (
          Keeps-then (field-Keeps b i _ (λ q. refl)) (
            Keeps-then (Keeps-if (not (p.pagetable == 0)) (lift-Keeps b _) Keeps-pure)
              (Keeps-then (field-Keeps b i _ (λ q. refl)) (clear-Keeps b i)))))))

  give_up-Keeps : (i : ℕ) → Keeps (PidsOk b) (give_up P fs i)
  unfolding give_up
  give_up-Keeps i = Keeps-then (freeproc-Keeps i) Keeps-pure

  pub growproc-Keeps : (me n : ℕ) → Keeps {F = F} (PidsOk b) (growproc P fs me n)
  unfolding growproc
  growproc-Keeps me n =
      search (Keeps-bind, Keeps-then, Keeps-if, Keeps-pure, Keeps-get_proc, lift-Keeps, field-Keeps)
        depth 12 parts 0

  with_files-Keeps : {A : Type 0} (f : F → A × F) → Keeps (PidsOk b) (with_files f)
  with_files-Keeps f =
      Keeps-with_files f (λ s g h. record { pids_ok = h.pids_ok; bounded = h.bounded })

  dup_files-Keeps : (parent child : List ℕ) → Keeps (PidsOk b) (dup_files P fs parent child)
  unfolding dup_files
  dup_files-Keeps [] child = Keeps-pure
  dup_files-Keeps (f ∷ fds) [] = Keeps-pure
  dup_files-Keeps (f ∷ fds) (g ∷ gs) =
      Keeps-bind (Keeps-if (not (f == 0)) (with_files-Keeps _) Keeps-pure)
        (λ h. Keeps-bind (record { run = (dup_files-Keeps fds gs).run }) (λ hs. Keeps-pure))

  -- There is a pid left.
  abbrev Room : System F → Type 0
  Room s = Pids s.nextpid (pids s.procs) × (s.nextpid < b)

  -- After `allocpid`.
  abbrev Taken : ℕ → System F → Type 0
  Taken pid s = Pids pid (pids s.procs) × (s.nextpid ≡ pid + 1) × (pid < b)

  allocpid-Taken : b < 2 ^ 32 → Returns Room Taken (Life.allocpid P fs)
  unfolding Life.allocpid
  allocpid-Taken small = record {
    value = λ s. s.nextpid;
    next = λ s. record s { nextpid = (s.nextpid + 1) % 2 ^ 32 };
    run = λ s. refl;
    fits = λ s (h, room). (h, omega arith, room);
  }

  pid-Moves :
      (i pid : ℕ) → Moves (Taken pid) (PidsOk b) (update_proc i (λ q. record q { pid = pid }))
  pid-Moves i pid = Moves-update_proc (λ s p e (h, next, room). record {
    pids_ok =
        subst (λ n. Pids n (pids (set s.procs i (record p { pid = pid })))) (sym next)
          (subst (λ ns. Pids (pid + 1) ns) (sym (pids-set s.procs i (record p { pid = pid })))
            (Pids-next pid i p.pid (pids s.procs) (get-pids s.procs i p e) h));
    bounded = omega arith;
  })

  found-Moves : (i : ℕ) → b < 2 ^ 32 → Moves Room (PidsOk b) (found P fs i)
  unfolding found
  found-Moves i small = Moves-bind (allocpid-Taken small) (λ pid. Moves-then (pid-Moves i pid) (
      search (Keeps-bind, Keeps-then, Keeps-if, Keeps-pure, lift-Keeps, field-Keeps, give_up-Keeps)
        depth 22 fits 4000 parts 0))

  allocproc-Moves : b < 2 ^ 32 → Moves Room (PidsOk b) (allocproc P fs)
  unfolding allocproc
  allocproc-Moves small = record {
    run = λ s (h, room). elim (Option-cases (find_unused 0 s.procs)) [
      | inl e ↦ rw (e, Ends) (record { pids_ok = h; bounded = omega arith })
      | inr (i, e) ↦ rw (e, Ends) ((found-Moves i small).run s (h, room))
    ];
  }

  pub fork-Moves : (me : ℕ) → b < 2 ^ 32 → Moves Room (PidsOk b) (fork P fs me)
  unfolding fork
  fork-Moves me small = Moves-get_proc (λ p. Moves-after (allocproc-Moves small) (λ child.
      Keeps-option child Keeps-pure (λ i.
        search
          (
            Keeps-bind, Keeps-then, Keeps-if, Keeps-pure, Keeps-get_proc, lift-Keeps, field-Keeps,
            freeproc-Keeps, with_files-Keeps, dup_files-Keeps,
          )
          depth 24 fits 4000 parts 0)))
