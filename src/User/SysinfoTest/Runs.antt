-- ===== src/User/SysinfoTest/Runs.antt =====
-- How the parts of sysinfotest.c come to an end.
use my_os_proj.Base.{
  ℕ, ◌≡◌, ◌≢◌, refl, ap, arith, Bool, true, false, not, ◌==◌, Option, none, some, if◌then◌else◌,
}
use my_os_proj.User.SysinfoTest.{
  Info, Calls, Session, Out, ok, exited, Test, and_then, fail, pure, grown, Message,
}

module _ {S : Type 0} where
  pub and_then-ok :
      {A B : Type 0} (o : Out S A) (f : A → Test S B) (b : B) (t : Session S)
      → and_then o f ≡ ok b t
      → (a : A) × ((s : Session S) × ((o ≡ ok a s) × (f a s ≡ ok b t)))
  and_then-ok (ok a s) f b t h = (a, (s, (refl, h)))
  and_then-ok (exited n s) f b t h = cc
  and_then-ok Out.out_of_fuel f b t h = cc

  pub ok_eq :
      {A : Type 0} (a b : A) (s t : Session S)
      → ◌≡◌ {A = Out S A} (ok a s) (ok b t)
      → (a ≡ b) × (s ≡ t)
  ok_eq a b s t h = (cc, cc)

pub equal_of : (a b : ℕ) → (a == b) ≡ true → a ≡ b
equal_of a b h = ground arith

pub other_of : (a b : ℕ) → (a == b) ≡ false → a ≢ b
other_of a b h = λ e. let yes : (a == b) ≡ true = ground (arith, e) in cc

module _ {S : Type 0} (c : Calls S) where
  pub answered :
      (o : Option Info) (m : Message) (s t : Session S) (info : Info)
      → (elim o as (λ _. Test S Info) [ none ↦ fail c m | some i ↦ pure i ]) s ≡ ok info t
      → (o ≡ some info) × (t ≡ s)
  answered none m s t info h = cc
  answered (some i) m s t info h = (cc, cc)

  pub tested :
      (b : Bool) (m : Message) (s t : Session S) (x : Unit {0})
      → (if b then pure tt else fail c m) s ≡ ok x t
      → (b ≡ true) × (t ≡ s)
  tested true m s t x h = (refl, cc)
  tested false m s t x h = cc

  pub not_tested :
      (b : Bool) (m : Message) (s t : Session S) (x : Unit {0})
      → (if b then fail c m else pure tt) s ≡ ok x t
      → (b ≡ false) × (t ≡ s)
  not_tested false m s t x h = (refl, cc)
  not_tested true m s t x h = cc

  pub grown-ok :
      (o : Option (ℕ × S)) (s t : Session S) (n : ℕ) → grown c o s ≡ ok n t → o ≡ some (n, t.system)
  grown-ok none s t n h = cc
  grown-ok (some (m, u)) s t n h =
      let (number, same) = ok_eq m n (record s { system = u }) t h in
      let place : u ≡ t.system = ap (λ (v : Session S). v.system) same in cc

  pub else_of :
      {A : Type 0} (b : Bool) (m : Message) (f : Test S A) (s t : Session S) (a : A)
      → (if not b then fail c m else f) s ≡ ok a t
      → (b ≡ true) × (f s ≡ ok a t)
  else_of true m f s t a h = (refl, h)
  else_of false m f s t a h = cc
