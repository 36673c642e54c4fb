-- ===== src/Proc/Table/Wakeup.antt =====
-- `wakeup`: which processes it makes RUNNABLE.
use my_os_proj.Base.{
  ℕ, zero, suc, ◌+◌, ◌≡◌, ◌≢◌, ◌⊎◌, inl, inr, refl, ◌∙◌, ap, arith, true, not, ◌&&◌, ◌==◌, some, [],
  ◌∷◌, get_elem?, length, Bool-cases,
}
use my_os_proj.Proc.{State, Chan, Proc, Table, is_state, chan_eq}
use my_os_proj.Proc.Table.{wake, wakeup_from, wakeup}

-- A process sleeps on the channel.
pub record SleepsOn (chan : Chan) (p : Proc) : Type 0 where
  pub asleep : p.state ≡ State.sleeping
  pub on : chan_eq p.chan chan ≡ true

wakeup_from_elem :
    (me : ℕ) (chan : Chan) (n i : ℕ) (ps : Table) (p : Proc)
    → get_elem? ps i ≡ some p
    → get_elem? (wakeup_from me chan n ps) i ≡ some (wake me chan (n + i) p)
unfolding wakeup_from
wakeup_from_elem me chan n i [] p e = cc
wakeup_from_elem me chan n zero (q ∷ ps) p e =
    let same : q ≡ p = cc in let sum : n ≡ n + 0 = omega arith in cc
wakeup_from_elem me chan n (suc i) (q ∷ ps) p e =
    wakeup_from_elem me chan (n + 1) i ps p e
    ∙ ap (λ j. some (wake me chan j p)) (let sum : n + 1 + i ≡ n + suc i = omega arith in sum)

pub wakeup_elem :
    (me : ℕ) (chan : Chan) (i : ℕ) (ps : Table) (p : Proc)
    → get_elem? ps i ≡ some p
    → get_elem? (wakeup me chan ps) i ≡ some (wake me chan i p)
unfolding wakeup
wakeup_elem me chan i ps p e =
    wakeup_from_elem me chan 0 i ps p e
    ∙ ap (λ j. some (wake me chan j p)) (let sum : 0 + i ≡ i = omega arith in sum)

length-wakeup_from :
    (me : ℕ) (chan : Chan) (n : ℕ) (ps : Table) → length (wakeup_from me chan n ps) ≡ length ps
unfolding wakeup_from
length-wakeup_from me chan n [] = refl
length-wakeup_from me chan n (p ∷ ps) = ap suc (length-wakeup_from me chan (n + 1) ps)

length-wakeup : (me : ℕ) (chan : Chan) (ps : Table) → length (wakeup me chan ps) ≡ length ps
unfolding wakeup
length-wakeup me chan ps = length-wakeup_from me chan 0 ps

-- What `wakeup` leaves at an index that held `p`.
pub record Woken (me : ℕ) (chan : Chan) (i : ℕ) (p q : Proc) : Type 0 where
  pub same_but_state : q ≡ record p { state = q.state }
  pub woken : i ≢ me → SleepsOn chan p → q.state ≡ State.runnable
  pub kept : (i ≡ me) ⊎ (¬ SleepsOn chan p) → q ≡ p

pub state_eq : (s : State) → is_state s State.sleeping ≡ true → s ≡ State.sleeping
state_eq State.sleeping h = refl
state_eq State.unused h = ground arith
state_eq State.used h = ground arith
state_eq State.runnable h = ground arith
state_eq State.running h = ground arith
state_eq State.zombie h = ground arith

wake_kept :
    (me : ℕ) (chan : Chan) (i : ℕ) (p : Proc)
    → (i ≡ me) ⊎ (¬ SleepsOn chan p)
    → wake me chan i p ≡ p
unfolding wake
wake_kept me chan i p (inl e) = ground arith
wake_kept me chan i p (inr awake) = elim (Bool-cases (is_state p.state State.sleeping)) [
  | inl s ↦ elim (Bool-cases (chan_eq p.chan chan)) [
    | inl c ↦ elim (awake (record { asleep = state_eq p.state s; on = c })) [ ]
    | inr c ↦ ground (arith, c)
  ]
  | inr s ↦ ground (arith, s)
]

pub wake-cases :
    (me : ℕ) (chan : Chan) (i : ℕ) (p : Proc)
    → (wake me chan i p ≡ p)
      ⊎ (SleepsOn chan p × (wake me chan i p ≡ record p { state = State.runnable }))
unfolding wake
wake-cases me chan i p =
    elim (Bool-cases (not (i == me) && (is_state p.state State.sleeping && chan_eq p.chan chan))) [
      | inl e ↦ inr (sleeps e, rw e refl)
      | inr e ↦ inl (rw e refl)
    ]
  where
    sleeps :
        not (i == me) && (is_state p.state State.sleeping && chan_eq p.chan chan) ≡ true
        → SleepsOn chan p
    sleeps e = record { asleep = state_eq p.state (ground (arith, e)); on = ground (arith, e) }

same-wake :
    (me : ℕ) (chan : Chan) (i : ℕ) (p : Proc)
    → wake me chan i p ≡ record p { state = (wake me chan i p).state }
unfolding wake
same-wake me chan i p = ground arith

wake-Woken : (me : ℕ) (chan : Chan) (i : ℕ) (p : Proc) → Woken me chan i p (wake me chan i p)
unfolding wake
wake-Woken me chan i p = record {
  same_but_state = same-wake me chan i p;
  woken = λ ne s. ground (arith, s.asleep, s.on);
  kept = λ h. wake_kept me chan i p h;
}

-- `wakeup` on a channel, run by the process with index `me`, leaves at each index of the table the
-- process it found there, with all its fields but the state; its state becomes RUNNABLE when the
-- process is another one than `me` and sleeps on the channel, and does not change otherwise.
pub wakeup-Woken :
    (me : ℕ) (chan : Chan) (i : ℕ) (ps : Table) (p : Proc)
    → get_elem? ps i ≡ some p
    → (q : Proc) × ((get_elem? (wakeup me chan ps) i ≡ some q) × Woken me chan i p q)
wakeup-Woken me chan i ps p e =
    (wake me chan i p, (wakeup_elem me chan i ps p e, wake-Woken me chan i p))
