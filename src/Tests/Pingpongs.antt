-- ===== src/Tests/Pingpongs.antt =====
-- The other small programs of the labs: pingpong with pipes that are queues, and trace.
use my_os_proj.Base.{
  ℕ, suc, ◌+◌, ◌-◌, ◌≤◌, ◌<◌, ◌≡◌, refl, arith, true, false, leb, ◌==◌, Option, none, some, List,
  [], ◌∷◌, ◌++◌, length, if◌then◌else◌,
}
use my_os_proj.User.Pingpong.{
  Pipes, Who, parent, child, ping, pong, Buffer, fill, World, next_call, step, Reaches, begin,
  then_step,
}
use my_os_proj.User.Pingpong.Schedule.{View, IsPipe}
use my_os_proj.User.Pingpong.Order.{Reaches-printed, Reaches_progress}
use my_os_proj.User.TraceCommand.{Entry, Array, Done, main, expected, main_runs_command}

-- A pipe of 512 bytes.
abbrev take_all : (n : ℕ) → View → Option (List ℕ × View)
take_all n q = elim q.bytes [
  | [] ↦ if q.writers == 0 then some ([], q) else none
  | x ∷ xs ↦ if leb (length (x ∷ xs)) n then some (x ∷ xs, record q { bytes = [] }) else none
]

abbrev queue : Pipes View
queue = record {
  opened = record { bytes = []; readers = 1; writers = 1 };
  inherit = λ q. record q { readers = q.readers + q.readers; writers = q.writers + q.writers };
  close_read = λ q. record q { readers = q.readers - 1 };
  close_write = λ q. record q { writers = q.writers - 1 };
  write = λ xs q.
      if leb (length (q.bytes ++ xs)) 512 then some (record q { bytes = q.bytes ++ xs }) else none;
  read = take_all;
}

queue-IsPipe : IsPipe queue (λ q. q) 512
queue-IsPipe = record {
  new = refl;
  closes_read = λ q h. refl;
  closes_write = λ q h. refl;
  writes = λ q xs readers empty fits.
      let room : leb (length xs) 512 ≡ true = ground arith in
      (record q { bytes = xs }, rw (empty, room) refl, refl);
  reads = λ q n x xs e fits.
      let all : leb (length (x ∷ xs)) n ≡ true = ground arith in
      (record q { bytes = [] }, rw (e, all) refl, refl);
  waits = λ q n e writers.
      let some_writer : (q.writers == 0) ≡ false = ground arith in rw (e, some_writer) refl;
}

stack : Buffer
stack i = b'?'

-- The parent writes before the child runs at all, and the two take turns at the end.
abbrev turns : List Who
turns =
    parent ∷ parent ∷ parent ∷ parent ∷ child ∷ child ∷ child ∷ child ∷ child ∷ child ∷ parent
    ∷ child ∷ parent ∷ parent ∷ []

record Run : Type 0 where
  steps : ℕ
  last : World View
  reached : Reaches queue stack steps last

abbrev take : (r : Run) (who : Who) (t : Option (World View)) → step queue who r.last ≡ t → Run
take r who none e = r
take r who (some t) e = record {
  steps = suc r.steps;
  last = t;
  reached = then_step who r.reached e;
}

abbrev run : List Who → Run → Run
run [] r = r
run (who ∷ rest) r = run rest (take r who (step queue who r.last) refl)

abbrev finish : Run
finish = run turns (record { steps = 0; last = _; reached = begin })

Reaches-printed_example :
    (finish.last.printed ≡ (child, fill ping stack) ∷ (parent, fill pong stack) ∷ [])
    × (finish.last.parent.calls ≡ [])
    × (finish.last.child.calls ≡ [])
unfolding next_call
Reaches-printed_example =
    Reaches-printed queue (λ q. q) 512 queue-IsPipe (omega arith) stack finish.last finish.reached

-- After five steps the parent sleeps, and the child can go on.
abbrev halfway : Run
halfway =
    run (parent ∷ parent ∷ parent ∷ parent ∷ child ∷ [])
      (record { steps = 0; last = _; reached = begin })

Reaches_progress_example :
    (5 ≤ 14) × (5 < 14 → (who : Who) × (t : World View) × (step queue who halfway.last ≡ some t))
unfolding next_call
Reaches_progress_example =
    Reaches_progress queue (λ q. q) 512 queue-IsPipe (omega arith) stack 5 halfway.last
      halfway.reached

-- trace 32 grep hello README, with room for two of the arguments.
abbrev no_junk : Array
no_junk k = Entry.rubbish k

main_runs_command_example :
    (nargv : Array) × (main 4
        (λ s. 32)
        (λ mask. true)
        no_junk
        ((b't' ∷ []) ∷ (b'3' ∷ b'2' ∷ []) ∷ (b'g' ∷ []) ∷ (b'h' ∷ []) ∷ (b'R' ∷ []) ∷ [])
      ≡ Done.exec nargv)
    × ((k : ℕ) → nargv k ≡ expected 4 ((b'g' ∷ []) ∷ (b'h' ∷ []) ∷ (b'R' ∷ []) ∷ []) no_junk k)
main_runs_command_example =
    main_runs_command 4 (λ s. 32) (λ mask. true) no_junk (b't' ∷ []) (b'3' ∷ b'2' ∷ []) (b'g' ∷ [])
      ((b'h' ∷ []) ∷ (b'R' ∷ []) ∷ []) refl refl
