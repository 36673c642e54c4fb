-- ===== src/Proc/Table/Adopt.antt =====
-- What `reparent` of lab3/proc.c does to one process, and how its rounds add up.
use my_os_proj.Base.{
  ℕ, ◌≡◌, ◌⊎◌, inl, inr, refl, sym, ◌∙◌, ap, subst, Bool, true, false, ◌&&◌, ◌||◌, Option, some,
  if◌then◌else◌,
}
use my_os_proj.Proc.{State, Proc, chan_eq, ptr_eq}
use my_os_proj.Proc.Table.{wake, chan_of}
use my_os_proj.Proc.Table.Wakeup.{SleepsOn, wake-cases}

-- What `reparent` does to a process `old`; `seen` says whether the loop reaches it.
pub record Reparented (p : ℕ) (initproc : Option ℕ) (seen : Bool) (old new : Proc) : Type 0 where
  adopted : new.parent ≡ (if seen && ptr_eq old.parent (some p) then initproc else old.parent)
  pub same_but_state : new ≡ record old { parent = new.parent; state = new.state }
  pub woken :
      (new.state ≡ old.state) ⊎ (SleepsOn (chan_of initproc) old × (new.state ≡ State.runnable))

module _ (p : ℕ) (initproc : Option ℕ) where
  pub untouched : (old : Proc) → Reparented p initproc false old old
  untouched old = record { adopted = refl; same_but_state = refl; woken = inl refl }

  -- The process that the round does not adopt, when the test on its parent fails.
  pub passed_over :
      (seen : Bool) (old : Proc)
      → (seen ≡ true → ptr_eq old.parent (some p) ≡ false)
      → Reparented p initproc seen old old
  passed_over true old h = record {
    adopted = rw (h refl) refl;
    same_but_state = refl;
    woken = inl refl;
  }
  passed_over false old h = untouched old

  -- A process that the round's `wakeup` may wake, `mid` being what the round makes of it before.
  pub then_woken :
      (me i : ℕ) (seen : Bool) (old mid : Proc)
      → Reparented p initproc seen old mid
      → mid.state ≡ old.state
      → mid.chan ≡ old.chan
      → Reparented p initproc seen old (wake me (chan_of initproc) i mid)
  then_woken me i seen old mid r es ec = elim (wake-cases me (chan_of initproc) i mid) [
    | inl e ↦ subst (Reparented p initproc seen old) (sym e) r
    | inr (s, e) ↦ subst (Reparented p initproc seen old) (sym e) (record {
      adopted = r.adopted;
      same_but_state = ap (λ (q : Proc). record q { state = State.runnable }) r.same_but_state;
      woken = inr (
        record {
          asleep = sym es ∙ s.asleep;
          on = subst (λ c. chan_eq c (chan_of initproc) ≡ true) ec s.on;
        },
        refl,
      );
    })
  ]

  pub adopts :
      (old : Proc)
      → ptr_eq old.parent (some p) ≡ true
      → Reparented p initproc true old (record old { parent = initproc })
  adopts old e = record { adopted = rw e refl; same_but_state = refl; woken = inl refl }

  both_parent :
      (b c : Bool) (x y z : Option ℕ)
      → b && c ≡ false
      → y ≡ (if b && ptr_eq x (some p) then initproc else x)
      → z ≡ (if c && ptr_eq y (some p) then initproc else y)
      → z ≡ (if (b || c) && ptr_eq x (some p) then initproc else x)
  both_parent true true x y z e ey ez = cc
  both_parent true false x y z e ey ez = ez ∙ ey
  both_parent false c x y z e ey ez =
      ez ∙ ap (λ w. if c && ptr_eq w (some p) then initproc else w) ey

  still_sleeps :
      (old mid : Proc)
      → mid.state ≡ old.state
      → mid.chan ≡ old.chan
      → SleepsOn (chan_of initproc) mid
      → SleepsOn (chan_of initproc) old
  still_sleeps old mid es ec s = record {
    asleep = sym es ∙ s.asleep;
    on = subst (λ c. chan_eq c (chan_of initproc) ≡ true) ec s.on;
  }

  both_woken :
      (b c : Bool) (old mid new : Proc)
      → Reparented p initproc b old mid
      → Reparented p initproc c mid new
      → (new.state ≡ old.state) ⊎ (SleepsOn (chan_of initproc) old × (new.state ≡ State.runnable))
  both_woken b c old mid new r r' = elim r.woken [
    | inl e ↦ elim r'.woken [
      | inl e' ↦ inl (e' ∙ e)
      | inr (s, e') ↦
          inr (still_sleeps old mid e (ap (λ (q : Proc). q.chan) r.same_but_state) s, e')
    ]
    | inr (s, e) ↦ elim r'.woken [ inl e' ↦ inr (s, e' ∙ e) | inr (_, e') ↦ inr (s, e') ]
  ]

  pub both :
      (b c : Bool) (old mid new : Proc)
      → b && c ≡ false
      → Reparented p initproc b old mid
      → Reparented p initproc c mid new
      → Reparented p initproc (b || c) old new
  both b c old mid new e r r' = record {
    adopted = both_parent b c old.parent mid.parent new.parent e r.adopted r'.adopted;
    same_but_state =
        r'.same_but_state
        ∙ ap (λ (q : Proc). record q { state = new.state; parent = new.parent }) r.same_but_state;
    woken = both_woken b c old mid new r r';
  }
