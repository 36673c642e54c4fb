-- ===== src/Proc/Inherit.antt =====
-- `fork` of lab2/proc.c hands the trace mask on to the child.
use my_os_proj.Base.{
  ℕ, ◌+◌, ◌≡◌, ◌==◌, ◌∙◌, refl, sym, subst, inl, inr, Bool, true, false, not, Option, none, some,
  List, [], ◌∷◌, get_elem?, if◌then◌else◌, Option-cases,
}
use my_os_proj.Base.Elements.{get-set}
use my_os_proj.Memory.{memmove, store64}
use my_os_proj.Kernel
use my_os_proj.Kernel.{Platform, Kernel, Cmd}
use my_os_proj.Proc.{State, Proc}
use my_os_proj.Proc.Life.{dup_files, trapframe_size}
use my_os_proj.Proc.Traced.{allocproc, dress, fork, freeproc}
use my_os_proj.Proc.System.{
  System, Files, Out, ok, panic, out_of_fuel, exited, Op, pure, ◌>>=◌, ◌>>◌, and_then, lift,
  get_proc, update_proc, with_files,
}
use my_os_proj.Proc.System.Laws.{get_proc-ok}
use my_os_proj.Proc.Keeps.{
  Ends, Keeps, Keeps-bind, Keeps-if, Keeps-pure, Keeps-lift, Keeps-update_proc, Keeps-with_files,
}

-- What an operation returns fits the state that it ends in.
abbrev pub EndsIn : {F A : Type 0} → (A → System F → Type 0) → Out F A → Type 0
EndsIn S (ok a s) = S a s
EndsIn S (panic e) = Unit
EndsIn S out_of_fuel = Unit
EndsIn S (exited s) = Unit

record Yields {F A : Type 0} (Q : System F → Type 0) (S : A → System F → Type 0) (m : Op F A)
    : Type 0 where
  pub run : (s : System F) → Q s → EndsIn S (m s)

after_yield :
    {F A B : Type 0} {Q : System F → Type 0} {S : B → System F → Type 0} (r : Out F A)
    (f : A → Op F B)
    → Ends Q r
    → ((a : A) → Yields Q S (f a))
    → EndsIn S (and_then r f)
after_yield (ok a s) f q h = (h a).run s q
after_yield (panic e) f q h = tt
after_yield out_of_fuel f q h = tt
after_yield (exited s) f q h = tt

Yields-bind :
    {F A B : Type 0} {Q : System F → Type 0} {S : B → System F → Type 0} {m : Op F A}
    {f : A → Op F B}
    → Keeps Q m
    → ((a : A) → Yields Q S (f a))
    → Yields Q S (m >>= f)
Yields-bind {m} {f} k h = record { run = λ s q. after_yield (m s) f (k.run s q) h }

Yields-after :
    {F B : Type 0} {Q R : System F → Type 0} {S : B → System F → Type 0} (m : Op F (Unit {0}))
    {n : Op F B}
    → ((s : System F) → Q s → Ends R (m s))
    → Yields R S n
    → Yields Q S (m >> n)
Yields-after m {n} k h = record { run = λ s q. after_yield (m s) (λ _. n) (k s q) (λ _. h) }

Yields-then :
    {F B : Type 0} {Q : System F → Type 0} {S : B → System F → Type 0} {m : Op F (Unit {0})}
    {n : Op F B}
    → Keeps Q m
    → Yields Q S n
    → Yields Q S (m >> n)
Yields-then {m} {n} k h = record { run = λ s q. after_yield (m s) (λ _. n) (k.run s q) (λ _. h) }

Yields-if :
    {F A : Type 0} {Q : System F → Type 0} {S : A → System F → Type 0} (b : Bool) {m n : Op F A}
    → Yields Q S m
    → Yields Q S n
    → Yields Q S (if b then m else n)
Yields-if true k h = k
Yields-if false k h = h

anything : {F A : Type 0} (r : Out F A) → Ends (λ s. Unit) r
anything (ok a s) = tt
anything (panic e) = tt
anything out_of_fuel = tt
anything (exited s) = tt

-- The process at an index has the pid, and the mask.
record Child {F : Type 0} (i pid mask : ℕ) (s : System F) : Type 0 where
  pub child : Proc
  pub there : get_elem? s.procs i ≡ some child
  pub has_pid : child.pid ≡ pid
  pub has_mask : child.mask ≡ mask

-- When a pid is returned, a process has it, and the mask.
abbrev pub Inherits : {F : Type 0} (mask : ℕ) → Option ℕ → System F → Type 0
Inherits mask none s = Unit
Inherits mask (some pid) s =
    (i : ℕ) × (child : Proc) × (get_elem? s.procs i ≡ some child)
    × (child.pid ≡ pid)
    × (child.mask ≡ mask)

module _ {F : Type 0} (P : Platform) (fs : Files F) (i pid mask : ℕ) where
  -- Changes of other fields of the child, and of other parts of the state.
  field-Keeps :
      (f : Proc → Proc)
      → ((p : Proc) → (f p).pid ≡ p.pid)
      → ((p : Proc) → (f p).mask ≡ p.mask)
      → Keeps {F = F} (Child i pid mask) (update_proc i f)
  field-Keeps f same same' = Keeps-update_proc (λ s p e h. record {
    child = f p;
    there = get-set s.procs i p (f p) e;
    has_pid = same p ∙ subst (λ (q : Proc). q.pid ≡ pid) (found s p e h) h.has_pid;
    has_mask = same' p ∙ subst (λ (q : Proc). q.mask ≡ mask) (found s p e h) h.has_mask;
  })
    where
      found :
          (s : System F) (p : Proc)
          → get_elem? s.procs i ≡ some p
          → (h : Child i pid mask s) → h.child ≡ p
      found s p e h = let both : some h.child ≡ some p = sym h.there ∙ e in cc

  files-Keeps : {A : Type 0} (f : F → A × F) → Keeps (Child i pid mask) (with_files f)
  files-Keeps f = Keeps-with_files f (λ s g h. record {
    child = h.child;
    there = h.there;
    has_pid = h.has_pid;
    has_mask = h.has_mask;
  })

  lift-Keeps : {A : Type 0} (c : Cmd A) → Keeps {F = F} (Child i pid mask) (lift c)
  lift-Keeps c = Keeps-lift c (λ s k h. record {
    child = h.child;
    there = h.there;
    has_pid = h.has_pid;
    has_mask = h.has_mask;
  })

  dup_files-Keeps : (parent child : List ℕ) → Keeps (Child i pid mask) (dup_files P fs parent child)
  unfolding dup_files
  dup_files-Keeps [] child = Keeps-pure
  dup_files-Keeps (f ∷ fds) [] = Keeps-pure
  dup_files-Keeps (f ∷ fds) (g ∷ gs) =
      Keeps-bind (Keeps-if (not (f == 0)) (files-Keeps _) Keeps-pure)
        (λ h. Keeps-bind (record { run = (dup_files-Keeps fds gs).run }) (λ hs. Keeps-pure))

  pid-Yields : (n : ℕ) → n ≡ pid → Yields (Child i pid mask) (Inherits {F = F} mask) (pure (some n))
  pid-Yields n same = record {
    run = λ s h. (i, h.child, h.there, h.has_pid ∙ sym same, h.has_mask);
  }

  dress-Yields :
      (me : ℕ) (p np : Proc)
      → np.pid ≡ pid
      → Yields (Child i pid mask) (Inherits mask) (dress P fs me i p np)
  unfolding dress
  dress-Yields me p np same =
      Yields-then
        (lift-Keeps (Kernel.update (λ m. memmove m np.trapframe p.trapframe (trapframe_size P fs))))
        (Yields-then (lift-Keeps (Kernel.update (λ m. store64 m (np.trapframe + 112) 0))) (
          Yields-bind (dup_files-Keeps p.ofile np.ofile) (λ ofile.
            Yields-then (field-Keeps (λ q. record q { ofile = ofile }) (λ q. refl) (λ q. refl)) (
              Yields-bind (files-Keeps (fs.idup p.cwd)) (λ cwd.
                Yields-then (field-Keeps (λ q. record q { cwd = cwd }) (λ q. refl) (λ q. refl)) (
                  Yields-then
                    (field-Keeps (λ q. record q { name = p.name }) (λ q. refl) (λ q. refl))
                    (Yields-then
                      (field-Keeps (λ q. record q { parent = some me }) (λ q. refl) (λ q. refl))
                      (Yields-then
                        (field-Keeps (λ q. record q { state = State.runnable }) (λ q. refl)
                          (λ q. refl))
                        (pid-Yields np.pid same)))))))))

-- The process at an index has the pid.
record Has {F : Type 0} (i pid : ℕ) (s : System F) : Type 0 where
  pub child : Proc
  pub there : get_elem? s.procs i ≡ some child
  pub has_pid : child.pid ≡ pid

module _ {F : Type 0} (P : Platform) (fs : Files F) (i pid : ℕ) where
  size-Has :
      (n : ℕ) (np : Proc) (s : System F)
      → np.pid ≡ pid
      → get_elem? s.procs i ≡ some np
      → Ends (Has i pid) (update_proc i (λ q. record q { sz = n }) s)
  size-Has n np s same e =
      rw (e, Ends, update_proc)
        (record {
          child = record np { sz = n };
          there = get-set s.procs i np (record np { sz = n }) e;
          has_pid = same;
        })

  mask-Child :
      (mask : ℕ) (s : System F)
      → Has i pid s
      → Ends (Child i pid mask) (update_proc i (λ q. record q { mask = mask }) s)
  mask-Child mask s h =
      rw (h.there, Ends, update_proc)
        (record {
          child = record h.child { mask = mask };
          there = get-set s.procs i h.child (record h.child { mask = mask }) h.there;
          has_pid = h.has_pid;
          has_mask = refl;
        })

Yields-get_proc :
    {F B : Type 0} {Q : System F → Type 0} {S : B → System F → Type 0} {i : ℕ} {f : Proc → Op F B}
    → ((p : Proc) → Yields (λ s. get_elem? s.procs i ≡ some p) S (f p))
    → Yields Q S (get_proc i >>= f)
Yields-get_proc {i} h = record {
  run = λ s q. elim (Option-cases (get_elem? s.procs i)) [
    | inl e ↦ rw (e, EndsIn, get_proc) tt
    | inr (p, e) ↦ rw (e, get_proc) ((h p).run s e)
  ];
}

Yields-option :
    {F A B : Type 0} {Q : System F → Type 0} {S : B → System F → Type 0} (o : Option A) {m : Op F B}
    {n : A → Op F B}
    → Yields Q S m
    → ((x : A) → Yields Q S (n x))
    → Yields Q S (elim o [ none ↦ m | some x ↦ n x ])
Yields-option none k h = k
Yields-option (some x) k h = h x

module _ {F : Type 0} (P : Platform) (fs : Files F) where
  failed-Yields :
      {Q : System F → Type 0} (i mask : ℕ) → Yields Q (Inherits mask) (freeproc P fs i >> pure none)
  failed-Yields i mask =
      Yields-after {R = λ s. Unit} (freeproc P fs i) (λ s q. anything (freeproc P fs i s))
        (record { run = λ s q. tt })

  -- If the `fork` of lab2 by a process returns a pid, then some process has this pid and the trace
  -- mask of the caller; what the caller traces, its child traces.
  pub fork-Inherits :
      (me : ℕ) (p : Proc) (s : System F)
      → get_elem? s.procs me ≡ some p
      → EndsIn (Inherits p.mask) (fork P fs me s)
  unfolding fork
  fork-Inherits me p s e = rw (get_proc-ok s me p e) (
      after_yield {Q = λ s. Unit} (allocproc P fs s) _ (anything (allocproc P fs s)) (λ child.
        Yields-option child (record { run = λ s q. tt })
          (λ i. Yields-get_proc (λ np. Yields-bind (Keeps-lift _ (λ s k h. h)) (λ copied.
            Yields-if (not copied) (failed-Yields i p.mask) (
              Yields-after _ (λ s h. size-Has P fs i np.pid p.sz np s refl h)
                (Yields-after _ (λ s h. mask-Child P fs i np.pid p.mask s h)
                  (dress-Yields P fs i np.pid p.mask me p np refl))))))))
