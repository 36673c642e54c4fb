-- ===== src/Tests/Sleep.antt =====
-- A process that sleeps on a channel, while another wakes it.
use my_os_proj.Base.{◌≤◌, ◌≡◌, refl, true, false, none, some, List, [], ◌∷◌}
use my_os_proj.Proc.System.{System}
use my_os_proj.Proc.Sched.{Cpu}
use my_os_proj.Proc.Sched.Handover.{Who, World, init, step, run, Reaches, start, later}
use my_os_proj.Proc.Sched.Handover.Progress.{Goes, Reaches-Goes}
use my_os_proj.Tests.Procs.{family}

abbrev pub cpu : Cpu
cpu = record { holding = true; noff = 1; intr = false }

abbrev pub running : System (Unit {0})
running = record {
  kernel = record { mem = λ _. 0; freelist = 0 };
  procs = family;
  nextpid = 4;
  initproc = some 0;
  files = tt;
}

-- The state after steps of the sides in an order.
abbrev follow : List Who → World → World
follow [] w = w
follow (who ∷ order) w = elim (step who w) [ none ↦ w | some w' ↦ follow order w' ]

-- The first finds the condition false, comes as far as the release of `lk` in `sleep`, and the
-- second then takes `lk`; the first has its own lock, so `wakeup` waits until it sleeps.
abbrev order : List Who
order =
    Who.sleeper ∷ Who.sleeper ∷ Who.sleeper ∷ Who.sleeper ∷ Who.waker ∷ Who.waker ∷ Who.sleeper
    ∷ Who.sleeper ∷ Who.sleeper ∷ Who.waker ∷ []

reached : Reaches 10 (follow order init)
unfolding step run
reached =
    later
      (later
        (later
          (later
            (later
              (later
                (later
                  (later (later (later start Who.sleeper refl) Who.sleeper refl) Who.sleeper refl)
                  Who.sleeper refl)
                Who.waker refl)
              Who.waker refl)
            Who.sleeper refl)
          Who.sleeper refl)
        Who.sleeper refl)
      Who.waker refl

Reaches-Goes_example : (10 ≤ 32) × Goes (follow order init)
Reaches-Goes_example = Reaches-Goes reached

-- There `wakeup` holds the lock of the process that sleeps.
has_its_lock : (follow order init).p_holder ≡ some Who.waker
unfolding step run
has_its_lock = refl
