-- ===== src/Proc/Sched/Handover/Progress.antt =====
-- No wakeup is lost between `sleep` and `wakeup`, in any order of the statements of the sides. All
-- orders are tried, by a function that the proof runs.
use my_os_proj.Base.{
  ℕ, zero, suc, ◌+◌, ◌≤◌, ◌≡◌, ◌⊎◌, inl, inr, refl, subst, arith, Bool, true, false, ◌&&◌, ◌||◌,
  Option, none, some, List, [], ◌∷◌,
}
use my_os_proj.Proc.{State, is_state}
use my_os_proj.Proc.Sched.Handover.{
  Who, Statement, World, init, is_free, run, step, Reaches, start, later,
}

-- All sides have come to their ends, the condition holds, and the sleeper runs.
pub record Ended (w : World) : Type 0 where
  pub sleeper_left : w.sleeper_left ≡ []
  pub waker_left : w.waker_left ≡ []
  pub killer_left : w.killer_left ≡ []
  pub lk_holder : w.lk_holder ≡ none
  pub p_holder : w.p_holder ≡ none
  pub condition : w.condition ≡ true
  pub state : w.state ≡ State.running

-- Not stuck; and the sleeper looks at the condition with `lk` held, so also after `sleep`.
pub record Goes (w : World) : Type 0 where
  pub moves : Ended w ⊎ ((who : Who) × ((w' : World) × (step who w ≡ some w')))
  pub holds_lk :
      (rest : List Statement)
      → w.sleeper_left ≡ Statement.wait_for ∷ rest
      → w.lk_holder ≡ some Who.sleeper

abbrev is_nil : List Statement → Bool
is_nil [] = true
is_nil (c ∷ cs) = false

abbrev is_some : Option World → Bool
is_some none = false
is_some (some w) = true

abbrev is_sleeper : Option Who → Bool
is_sleeper (some Who.sleeper) = true
is_sleeper _ = false

abbrev starts_otherwise : List Statement → Bool
starts_otherwise (Statement.wait_for ∷ cs) = false
starts_otherwise _ = true

abbrev is_ended : World → Bool
is_ended w =
    (is_nil w.sleeper_left && (is_nil w.waker_left && is_nil w.killer_left))
    && ((is_free w.lk_holder && is_free w.p_holder)
        && (w.condition && is_state w.state State.running))

abbrev can_move : World → Bool
can_move w =
    is_some (step Who.sleeper w) || (is_some (step Who.waker w) || is_some (step Who.killer w))

abbrev looks_with_lk : World → Bool
looks_with_lk w = starts_otherwise w.sleeper_left || is_sleeper w.lk_holder

abbrev checks_after : (World → Bool) → Option World → Bool
checks_after f none = true
checks_after f (some w) = f w

-- Every state that is reached in less than `fuel` steps passes the tests, and no run is longer.
check : (fuel : ℕ) → World → Bool
check zero w = false
check (suc fuel) w =
    ((is_ended w || can_move w) && looks_with_lk w)
    && (checks_after (λ w'. check fuel w') (step Who.sleeper w)
        && (checks_after (λ w'. check fuel w') (step Who.waker w)
            && checks_after (λ w'. check fuel w') (step Who.killer w)))

init_checked : check 33 init ≡ true
unfolding check step run
init_checked = refl

both : (a b : Bool) → (a && b) ≡ true → (a ≡ true) × (b ≡ true)
both true b h = (refl, h)
both false b h = cc

either : (a b : Bool) → (a || b) ≡ true → (a ≡ true) ⊎ (b ≡ true)
either true b h = inl refl
either false b h = inr h

nil_eq : (l : List Statement) → is_nil l ≡ true → l ≡ []
nil_eq [] h = refl
nil_eq (c ∷ cs) h = cc

free_eq : (h : Option Who) → is_free h ≡ true → h ≡ none
free_eq none e = refl
free_eq (some x) e = cc

sleeper_eq : (h : Option Who) → is_sleeper h ≡ true → h ≡ some Who.sleeper
sleeper_eq (some Who.sleeper) e = refl
sleeper_eq (some Who.waker) e = cc
sleeper_eq (some Who.killer) e = cc
sleeper_eq none e = cc

some_eq : (o : Option World) → is_some o ≡ true → (w : World) × (o ≡ some w)
some_eq none e = cc
some_eq (some w) e = (w, refl)

is_ended-Ended : (w : World) → is_ended w ≡ true → Ended w
is_ended-Ended w h =
    let (lists, others) = both _ _ h in
    let (s, wk) = both _ _ lists in
    let (wa, ki) = both _ _ wk in
    let (locks, rest) = both _ _ others in
    let (l, p) = both _ _ locks in
    let (c, st) = both _ _ rest in
    record {
      sleeper_left = nil_eq w.sleeper_left s;
      waker_left = nil_eq w.waker_left wa;
      killer_left = nil_eq w.killer_left ki;
      lk_holder = free_eq w.lk_holder l;
      p_holder = free_eq w.p_holder p;
      condition = c;
      state = running_eq w.state st;
    }
  where
    running_eq : (s : State) → is_state s State.running ≡ true → s ≡ State.running
    running_eq State.running e = refl
    running_eq State.unused e = cc
    running_eq State.used e = cc
    running_eq State.sleeping e = cc
    running_eq State.runnable e = cc
    running_eq State.zombie e = cc

can_move_step :
    (w : World) → can_move w ≡ true → (who : Who) × ((w' : World) × (step who w ≡ some w'))
can_move_step w h = elim (either _ _ h) [
  | inl s ↦ (Who.sleeper, some_eq (step Who.sleeper w) s)
  | inr others ↦ elim (either _ _ others) [
    | inl wa ↦ (Who.waker, some_eq (step Who.waker w) wa)
    | inr ki ↦ (Who.killer, some_eq (step Who.killer w) ki)
  ]
]

check-Goes : (fuel : ℕ) (w : World) → check (suc fuel) w ≡ true → Goes w
unfolding check
check-Goes fuel w h =
    let (here, _) = both _ _ h in
    let (moves, looks) = both _ _ here in
    record {
      moves = elim (either _ _ moves) [
        | inl e ↦ inl (is_ended-Ended w e)
        | inr m ↦ inr (can_move_step w m)
      ];
      holds_lk = λ rest e. elim (either _ _ looks) [
        | inl other ↦
            let no : starts_otherwise (Statement.wait_for ∷ rest) ≡ true =
              subst (λ l. starts_otherwise l ≡ true) e other in
            absurd cc
        | inr held ↦ sleeper_eq w.lk_holder held
      ];
    }

check_step :
    (fuel : ℕ) (w w' : World) (who : Who)
    → check (suc fuel) w ≡ true
    → step who w ≡ some w'
    → check fuel w' ≡ true
unfolding check
check_step fuel w w' who h e =
    let (_, after) = both _ _ h in
    let (s, others) = both _ _ after in
    let (wa, ki) = both _ _ others in
    subst (λ o. checks_after (λ v. check fuel v) o ≡ true) e (at who s wa ki)
  where
    at :
        (who : Who)
        → checks_after (λ v. check fuel v) (step Who.sleeper w) ≡ true
        → checks_after (λ v. check fuel v) (step Who.waker w) ≡ true
        → checks_after (λ v. check fuel v) (step Who.killer w) ≡ true
        → checks_after (λ v. check fuel v) (step who w) ≡ true
    at Who.sleeper s wa ki = s
    at Who.waker s wa ki = wa
    at Who.killer s wa ki = ki

-- A state that passes the check is no end of the fuel.
check-suc :
    (fuel : ℕ) (w : World)
    → check fuel w ≡ true
    → (less : ℕ) × ((fuel ≡ suc less) × (check (suc less) w ≡ true))
unfolding check
check-suc zero w h = cc
check-suc (suc less) w h = (less, (refl, h))

Reaches-check :
    {n : ℕ} {w : World} → Reaches n w → (less : ℕ) × ((n + less ≡ 32) × (check (suc less) w ≡ true))
Reaches-check start = (32, (refl, init_checked))
Reaches-check (later {n} {w} {w'} r who e) =
    let (less, (sum, c)) = Reaches-check r in
    let (less', (same, c')) = check-suc less w' (check_step less w w' who c e) in
    (less', (omega (arith, sum, same), c'))

-- Three processes run the statements of this model, in any order. The first takes `lk`, and as long
-- as a condition does not hold it calls `sleep`, whose locks, switch and fields are followed one by
-- one; the second takes `lk`, makes the condition true, and calls `wakeup` on the channel; the third
-- calls `kill` for the first. In every state that they reach, at most 32 steps have been taken, and
-- one of them can go on, or they have all ended, with the condition true, the first process running
-- and both locks free: no wakeup is lost, and there is no deadlock. The first process always looks
-- at the condition with `lk` held, so also when `sleep` has returned.
pub Reaches-Goes : {n : ℕ} {w : World} → Reaches n w → (n ≤ 32) × Goes w
Reaches-Goes {w} r =
    let (less, (sum, c)) = Reaches-check r in (omega (arith, sum), check-Goes less w c)
