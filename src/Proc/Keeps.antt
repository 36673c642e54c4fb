-- ===== src/Proc/Keeps.antt =====
-- Properties of the state that an operation keeps, whatever it returns.
use my_os_proj.Base.{
  ℕ, ◌≡◌, sym, subst, inl, inr, Bool, true, false, Option, none, some, get_elem?, set,
  if◌then◌else◌, Option-cases,
}
use my_os_proj.Kernel.{Kernel, Panic, Run, Cmd}
use my_os_proj.Proc.{Proc, Table}
use my_os_proj.Proc.System.{
  System, Out, ok, panic, out_of_fuel, exited, Op, pure, fail, ◌>>=◌, ◌>>◌, and_then, lift_run,
  lift, get_proc, update_proc, update_procs, update_files, with_files,
}

-- The state that an operation ends in has the property; a panic ends in none.
abbrev pub Ends : {F A : Type 0} → (System F → Type 0) → Out F A → Type 0
Ends Q (ok a s) = Q s
Ends Q (panic e) = Unit
Ends Q out_of_fuel = Unit
Ends Q (exited s) = Q s

pub record Keeps {F A : Type 0} (Q : System F → Type 0) (m : Op F A) : Type 0 where
  pub run : (s : System F) → Q s → Ends Q (m s)

pub after_bind :
    {F A B : Type 0} {Q : System F → Type 0} (r : Out F A) (f : A → Op F B)
    → Ends Q r
    → ((a : A) → Keeps Q (f a))
    → Ends Q (and_then r f)
after_bind (ok a s) f q h = (h a).run s q
after_bind (panic e) f q h = tt
after_bind out_of_fuel f q h = tt
after_bind (exited s) f q h = q

pub Keeps-bind :
    {F A B : Type 0} {Q : System F → Type 0} {m : Op F A} {f : A → Op F B}
    → Keeps Q m
    → ((a : A) → Keeps Q (f a))
    → Keeps Q (m >>= f)
Keeps-bind {m} {f} k h = record { run = λ s q. after_bind (m s) f (k.run s q) h }

pub Keeps-then :
    {F B : Type 0} {Q : System F → Type 0} {m : Op F (Unit {0})} {n : Op F B}
    → Keeps Q m
    → Keeps Q n
    → Keeps Q (m >> n)
Keeps-then {m} {n} k h = record { run = λ s q. after_bind (m s) (λ _. n) (k.run s q) (λ _. h) }

pub Keeps-if :
    {F A : Type 0} {Q : System F → Type 0} (b : Bool) {m n : Op F A}
    → Keeps Q m
    → Keeps Q n
    → Keeps Q (if b then m else n)
Keeps-if true k h = k
Keeps-if false k h = h

pub Keeps-pure : {F A : Type 0} {Q : System F → Type 0} {a : A} → Keeps Q (pure a)
Keeps-pure = record { run = λ s q. q }

pub Keeps-fail : {F A : Type 0} {Q : System F → Type 0} {e : Panic} → Keeps {A = A} Q (fail e)
Keeps-fail = record { run = λ s q. tt }

pub Keeps-exited : {F A : Type 0} {Q : System F → Type 0} → Keeps {A = A} Q (λ s. exited s)
Keeps-exited = record { run = λ s q. q }

pub Keeps-get_proc : {F : Type 0} {Q : System F → Type 0} {i : ℕ} → Keeps Q (get_proc i)
Keeps-get_proc {i} = record {
  run = λ s q. elim (Option-cases (get_elem? s.procs i)) [
    | inl e ↦ rw (e, Ends, get_proc) tt
    | inr (p, e) ↦ rw (e, Ends, get_proc) q
  ];
}

-- A command of the memory management keeps what does not depend on the kernel's memory.
lift_ends :
    {F A : Type 0} (Q : System F → Type 0) (s : System F) (r : Run A)
    → ((k : Kernel) → Q (record s { kernel = k }))
    → Ends Q (lift_run s r)
lift_ends Q s (Run.ok a k) h = h k
lift_ends Q s (Run.panic e) h = tt
lift_ends Q s Run.out_of_fuel h = tt

pub Keeps-lift :
    {F A : Type 0} {Q : System F → Type 0} (c : Cmd A)
    → ((s : System F) (k : Kernel) → Q s → Q (record s { kernel = k }))
    → Keeps Q (lift c)
Keeps-lift {Q} c h = record { run = λ s q. lift_ends Q s (c s.kernel) (λ k. h s k q) }

pub Keeps-update_proc :
    {F : Type 0} {Q : System F → Type 0} {i : ℕ} {f : Proc → Proc}
    → ((s : System F) (p : Proc)
        → get_elem? s.procs i ≡ some p
        → Q s
        → Q (record s { procs = set s.procs i (f p) }))
    → Keeps Q (update_proc i f)
Keeps-update_proc {i} h = record {
  run = λ s q. elim (Option-cases (get_elem? s.procs i)) [
    | inl e ↦ rw (e, Ends, update_proc) tt
    | inr (p, e) ↦ rw (e, Ends, update_proc) (h s p e q)
  ];
}

pub Keeps-update_files :
    {F : Type 0} {Q : System F → Type 0} (f : F → F)
    → ((s : System F) (g : F) → Q s → Q (record s { files = g }))
    → Keeps Q (update_files f)
Keeps-update_files f h = record { run = λ s q. h s (f s.files) q }

pub Keeps-with_files :
    {F A : Type 0} {Q : System F → Type 0} (f : F → A × F)
    → ((s : System F) (g : F) → Q s → Q (record s { files = g }))
    → Keeps Q (with_files f)
Keeps-with_files f h = record { run = λ s q. h s (f s.files).1 q }

pub Keeps-update_procs :
    {F : Type 0} {Q : System F → Type 0} (f : Table → Table)
    → ((s : System F) → Q s → Q (record s { procs = f s.procs }))
    → Keeps Q (update_procs f)
Keeps-update_procs f h = record { run = h }

-- From one property to another.
pub record Moves {F A : Type 0} (Q R : System F → Type 0) (m : Op F A) : Type 0 where
  pub run : (s : System F) → Q s → Ends R (m s)

-- What an operation returns fits the state that it ends in.
pub record Returns {F A : Type 0} (Q : System F → Type 0) (S : A → System F → Type 0) (m : Op F A)
    : Type 0 where
  pub value : System F → A
  pub next : System F → System F
  pub run : (s : System F) → m s ≡ ok (value s) (next s)
  pub fits : (s : System F) → Q s → S (value s) (next s)

pub Moves-bind :
    {F A B : Type 0} {Q R : System F → Type 0} {S : A → System F → Type 0} {m : Op F A}
    {f : A → Op F B}
    → Returns Q S m
    → ((a : A) → Moves (S a) R (f a))
    → Moves Q R (m >>= f)
Moves-bind {R} {f} k h = record {
  run = λ s q.
      subst (λ r. Ends R (and_then r f)) (sym (k.run s))
        ((h (k.value s)).run (k.next s) (k.fits s q));
}

pub Moves-then :
    {F B : Type 0} {Q R : System F → Type 0} {m : Op F (Unit {0})} {n : Op F B}
    → Moves Q R m
    → Keeps R n
    → Moves Q R (m >> n)
Moves-then {m} {n} k h = record { run = λ s q. after_bind (m s) (λ _. n) (k.run s q) (λ _. h) }

pub Moves-update_proc :
    {F : Type 0} {Q R : System F → Type 0} {i : ℕ} {f : Proc → Proc}
    → ((s : System F) (p : Proc)
        → get_elem? s.procs i ≡ some p
        → Q s
        → R (record s { procs = set s.procs i (f p) }))
    → Moves Q R (update_proc i f)
Moves-update_proc {i} h = record {
  run = λ s q. elim (Option-cases (get_elem? s.procs i)) [
    | inl e ↦ rw (e, Ends, update_proc) tt
    | inr (p, e) ↦ rw (e, Ends, update_proc) (h s p e q)
  ];
}

pub Moves-after :
    {F A B : Type 0} {Q R : System F → Type 0} {m : Op F A} {f : A → Op F B}
    → Moves Q R m
    → ((a : A) → Keeps R (f a))
    → Moves Q R (m >>= f)
Moves-after {m} {f} k h = record { run = λ s q. after_bind (m s) f (k.run s q) h }

pub Moves-get_proc :
    {F B : Type 0} {Q R : System F → Type 0} {i : ℕ} {f : Proc → Op F B}
    → ((p : Proc) → Moves Q R (f p))
    → Moves Q R (get_proc i >>= f)
Moves-get_proc {i} h = record {
  run = λ s q. elim (Option-cases (get_elem? s.procs i)) [
    | inl e ↦ rw (e, Ends, get_proc) tt
    | inr (p, e) ↦ rw (e, get_proc) ((h p).run s q)
  ];
}

pub Keeps-option :
    {F A B : Type 0} {Q : System F → Type 0} (o : Option A) {m : Op F B} {n : A → Op F B}
    → Keeps Q m
    → ((x : A) → Keeps Q (n x))
    → Keeps Q (elim o [ none ↦ m | some x ↦ n x ])
Keeps-option none k h = k
Keeps-option (some x) k h = h x
