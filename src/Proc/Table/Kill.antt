-- ===== src/Proc/Table/Kill.antt =====
-- `kill` of lab3/proc.c.
use my_os_proj.Base.{
  ℕ, zero, suc, ◌<◌, ◌≡◌, ◌≢◌, inl, inr, refl, sym, ◌∙◌, ap, arith, Bool, true, false, ◌==◌, some,
  [], ◌∷◌, get_elem?, set, Bool-cases, subst,
}
use my_os_proj.Proc.{State, Proc, Table, is_state}
use my_os_proj.Proc.Table.{mark_killed, kill}
use my_os_proj.Proc.Table.Wakeup.{state_eq}

-- No process before index `n` has the pid.
abbrev AbsentBefore : (pid n : ℕ) → Table → Type 0
AbsentBefore pid n ps = (j : ℕ) (q : Proc) → j < n → get_elem? ps j ≡ some q → q.pid ≢ pid

-- A process that is killed, and wakes when it sleeps.
pub record Marked (p q : Proc) : Type 0 where
  pub same_but_state : q ≡ record p { killed = 1; state = q.state }
  pub woken : p.state ≡ State.sleeping → q.state ≡ State.runnable
  pub kept : p.state ≢ State.sleeping → q.state ≡ p.state

mark_killed-Marked : (p : Proc) → Marked p (mark_killed p)
unfolding mark_killed
mark_killed-Marked p = elim (Bool-cases (is_state p.state State.sleeping)) [
  | inl e ↦ record {
    same_but_state = rw e refl;
    woken = λ s. rw e refl;
    kept = λ awake. absurd (awake (state_eq p.state e));
  }
  | inr e ↦ record {
    same_but_state = rw e refl;
    woken = λ s. absurd (
        let yes : is_state p.state State.sleeping ≡ true = ap (λ x. is_state x State.sleeping) s in
        cc);
    kept = λ awake. rw e refl;
  }
]

-- What `kill` does to a table: nothing, or it marks the first process that has the pid.
pub data KillResult (pid : ℕ) (ps : Table) : Table × Bool → Type 0 where
  missed :
      ((j : ℕ) (q : Proc) → get_elem? ps j ≡ some q → q.pid ≢ pid) → KillResult pid ps (ps, false)
  hit :
      (i : ℕ) (p q : Proc)
      → get_elem? ps i ≡ some p
      → p.pid ≡ pid
      → AbsentBefore pid i ps
      → Marked p q
      → KillResult pid ps (set ps i q, true)

kill_skips :
    (pid : ℕ) (p : Proc) (ps : Table)
    → (p.pid == pid) ≡ false
    → kill pid (p ∷ ps) ≡ (p ∷ (kill pid ps).0, (kill pid ps).1)
unfolding kill
kill_skips pid p ps e = rw e refl

kill_hits :
    (pid : ℕ) (p : Proc) (ps : Table)
    → (p.pid == pid) ≡ true
    → kill pid (p ∷ ps) ≡ (mark_killed p ∷ ps, true)
unfolding kill
kill_hits pid p ps e = rw e refl

absent_cons :
    (pid : ℕ) (p : Proc) (ps : Table)
    → p.pid ≢ pid
    → ((j : ℕ) (q : Proc) → get_elem? ps j ≡ some q → q.pid ≢ pid)
    → (j : ℕ) (q : Proc) → get_elem? (p ∷ ps) j ≡ some q
    → q.pid ≢ pid
absent_cons pid p ps ne h zero q e =
    let same : p ≡ q = cc in λ e'. ne (ap (λ (x : Proc). x.pid) same ∙ e')
absent_cons pid p ps ne h (suc j) q e = h j q e

before_cons :
    (pid i : ℕ) (p : Proc) (ps : Table)
    → p.pid ≢ pid
    → AbsentBefore pid i ps
    → AbsentBefore pid (suc i) (p ∷ ps)
before_cons pid i p ps ne h zero q lt e =
    let same : p ≡ q = cc in λ e'. ne (ap (λ (x : Proc). x.pid) same ∙ e')
before_cons pid i p ps ne h (suc j) q lt e = h j q (omega arith) e

skipped :
    (pid : ℕ) (p : Proc) (ps : Table)
    → p.pid ≢ pid
    → (r : Table × Bool) → KillResult pid ps r
    → KillResult pid (p ∷ ps) (p ∷ r.0, r.1)
skipped pid p ps ne _ (KillResult.missed h) = KillResult.missed (absent_cons pid p ps ne h)
skipped pid p ps ne _ (KillResult.hit i q q' e e' before marked) =
    KillResult.hit (suc i) q q' e e' (before_cons pid i p ps ne before) marked

-- `kill` leaves the table as it is and fails when no process has the pid; otherwise it succeeds and
-- changes one process only, the first that has the pid: it is killed, and RUNNABLE if it slept.
pub kill-KillResult : (pid : ℕ) (ps : Table) → KillResult pid ps (kill pid ps)
unfolding kill
kill-KillResult pid [] = KillResult.missed (λ j q e. cc)
kill-KillResult pid (p ∷ ps) = elim (Bool-cases (p.pid == pid)) [
  | inl e ↦ subst (KillResult pid (p ∷ ps)) (sym (kill_hits pid p ps e)) (
      KillResult.hit 0 p (mark_killed p) refl (ground (arith, e)) (λ j q lt _. omega arith)
        (mark_killed-Marked p))
  | inr e ↦
      subst (KillResult pid (p ∷ ps)) (sym (kill_skips pid p ps e))
        (skipped pid p ps (ground (arith, e)) (kill pid ps) (kill-KillResult pid ps))
]
