-- ===== src/Walk/Halts.antt =====
-- Commands that do not run out of fuel, and `walk` among them.
use my_os_proj.Base.{ℕ, zero, suc, ◌≡◌, refl, Bool, true, false, ◌==◌, leb, not, if◌then◌else◌}
use my_os_proj.Memory.{Memory, load64}
use my_os_proj.Kernel.{
  Platform, Kernel, Panic, Run, ok, panic, out_of_fuel, Cmd, pure, fail, update, ◌>>=◌, ◌>>◌,
  and_then, maxva,
}
use my_os_proj.Kalloc.{kalloc, kfree, bad_page}
use my_os_proj.Pte.{is_valid, is_user, pte2pa}
use my_os_proj.Walk.{pte_at, grow, walk_loop, walk, walkaddr}

abbrev pub Halts : {A : Type 0} → Run A → Type 0
Halts (ok a k) = Unit
Halts (panic e) = Unit
Halts out_of_fuel = ⊥

pub and_then-Halts :
    {A B : Type 0} (r : Run A) (f : A → Cmd B)
    → Halts r
    → ((a : A) (k : Kernel) → Halts (f a k))
    → Halts (and_then r f)
and_then-Halts (ok a k) f h g = g a k
and_then-Halts (panic e) f h g = tt
and_then-Halts out_of_fuel f h g = h

pub if-Halts :
    {A : Type 0} (b : Bool) (x y : Run A) → Halts x → Halts y → Halts (if b then x else y)
if-Halts true x y h g = h
if-Halts false x y h g = g

-- Every run of a command ends.
pub record Halting {A : Type 0} (m : Cmd A) : Type 0 where
  pub run : (k : Kernel) → Halts (m k)

pub Halting-bind :
    {A B : Type 0} {m : Cmd A} {f : A → Cmd B}
    → Halting m
    → ((a : A) → Halting (f a))
    → Halting (m >>= f)
Halting-bind {m} {f} h g = record {
  run = λ k. and_then-Halts (m k) f (h.run k) (λ a k'. (g a).run k');
}

pub Halting-then :
    {B : Type 0} {m : Cmd (Unit {0})} {n : Cmd B} → Halting m → Halting n → Halting (m >> n)
Halting-then {m} {n} h g = record {
  run = λ k. and_then-Halts (m k) (λ _. n) (h.run k) (λ a k'. g.run k');
}

pub Halting-if :
    {A : Type 0} (b : Bool) {m n : Cmd A} → Halting m → Halting n → Halting (if b then m else n)
Halting-if true h g = h
Halting-if false h g = g

pub Halting-pure : {A : Type 0} {a : A} → Halting (pure a)
Halting-pure = record { run = λ k. tt }

pub Halting-fail : {A : Type 0} {e : Panic} → Halting {A = A} (fail e)
Halting-fail = record { run = λ k. tt }

pub Halting-update : (f : Memory → Memory) → Halting (update f)
Halting-update f = record { run = λ k. tt }

pub Halting-kalloc : Halting kalloc
unfolding kalloc
Halting-kalloc = record { run = λ k. tt }

pub Halting-kfree : (P : Platform) (pa : ℕ) → Halting (kfree P pa)
unfolding kfree
Halting-kfree P pa = record { run = λ k. if-Halts (bad_page P pa) _ _ tt tt }

pub ruleset halting = (
  Halting-bind, Halting-then, Halting-if, Halting-pure, Halting-fail, Halting-update,
  Halting-kalloc, Halting-kfree,
)

Halting-grow : (pte : ℕ) (alloc : Bool) → Halting (grow pte alloc)
unfolding grow
Halting-grow pte false = Halting-pure
Halting-grow pte true = search halting depth 12 parts 0

Halting-walk_loop : (l q va : ℕ) (alloc : Bool) → Halting (walk_loop l q va alloc)
unfolding walk_loop
Halting-walk_loop zero q va alloc = Halting-pure
Halting-walk_loop (suc l) q va alloc = record {
  run = λ k.
      if-Halts (is_valid (load64 k.mem (pte_at (suc l) q va))) _ _
        ((Halting-walk_loop l (pte2pa (load64 k.mem (pte_at (suc l) q va))) va alloc).run k)
        (and_then-Halts (grow (pte_at (suc l) q va) alloc k) _ ((Halting-grow _ alloc).run k)
          (λ t k'. (Halting-if (t == 0) Halting-pure (Halting-walk_loop l t va alloc)).run k'));
}

pub Halting-walk : (pt va : ℕ) (alloc : Bool) → Halting (walk pt va alloc)
unfolding walk
Halting-walk pt va alloc = record {
  run = λ k. if-Halts (leb maxva va) _ _ tt ((Halting-walk_loop 2 pt va alloc).run k);
}

pub Halting-walkaddr : (pt va : ℕ) → Halting (walkaddr pt va)
unfolding walkaddr
Halting-walkaddr pt va = record {
  run = λ k. if-Halts (leb maxva va) _ _ tt (
      and_then-Halts (walk pt va false k) _ ((Halting-walk pt va false).run k) (λ pte k'.
        (Halting-if (pte == 0) Halting-pure (record {
          run = λ k2.
              if-Halts (not (is_valid (load64 k2.mem pte))) _ _ tt
                (if-Halts (not (is_user (load64 k2.mem pte))) _ _ tt tt);
        })).run
          k'));
}

-- The same where the test matters.
pub if-Halts_known :
    {A : Type 0} (b : Bool) (x y : Run A)
    → (b ≡ true → Halts x)
    → (b ≡ false → Halts y)
    → Halts (if b then x else y)
if-Halts_known true x y h g = h refl
if-Halts_known false x y h g = g refl
