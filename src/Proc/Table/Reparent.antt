-- ===== src/Proc/Table/Reparent.antt =====
-- `reparent` of lab3/proc.c.
use my_os_proj.Base.{
  ℕ, zero, suc, ◌+◌, ◌<◌, ◌≡◌, inl, inr, refl, sym, ◌∙◌, ap, subst, arith, Bool, true, false, ◌&&◌,
  ◌||◌, ltb, leb, ◌==◌, Option, none, some, get_elem?, set, length, if◌then◌else◌, Bool-cases,
  Option-cases,
}
use my_os_proj.Base.Elements.{get-set, get-set_apart, get_elem?-lt, after_none}
use my_os_proj.Proc.{Proc, Table, ptr_eq}
use my_os_proj.Proc.Table.{wake, wakeup, reparent_loop, reparent, chan_of}
use my_os_proj.Proc.Table.Wakeup.{wakeup_elem}
use my_os_proj.Proc.Table.Adopt.{Reparented, untouched, passed_over, then_woken, adopts, both}

module _ (p : ℕ) (initproc : Option ℕ) where
  -- The round of the loop for the process with index `i`.
  abbrev round : (me i : ℕ) → Proc → Table → Table
  round me i pp ps =
      if ptr_eq pp.parent (some p)
      then wakeup me (chan_of initproc) (set ps i (record pp { parent = initproc }))
      else ps

  -- What a round leaves at an index.
  abbrev Holds : (ps : Table) (j : ℕ) (seen : Bool) (old : Proc) → Type 0
  Holds ps j seen old =
      (new : Proc) × ((get_elem? ps j ≡ some new) × Reparented p initproc seen old new)

  then_wakeup :
      (me : ℕ) (ps : Table) (j : ℕ) (seen : Bool) (old mid : Proc)
      → get_elem? ps j ≡ some mid
      → Reparented p initproc seen old mid
      → mid.state ≡ old.state
      → mid.chan ≡ old.chan
      → Holds (wakeup me (chan_of initproc) ps) j seen old
  then_wakeup me ps j seen old mid e r es ec = (
    wake me (chan_of initproc) j mid,
    (wakeup_elem me (chan_of initproc) j ps mid e, then_woken p initproc me j seen old mid r es ec),
  )

  same_elem :
      (ps : Table) (i j : ℕ) (pp old : Proc)
      → j ≡ i
      → get_elem? ps i ≡ some pp
      → get_elem? ps j ≡ some old
      → old ≡ pp
  same_elem ps i j pp old e ei ej =
      let at_i : some old ≡ some pp = sym ej ∙ ap (get_elem? ps) e ∙ ei in cc

  round_here :
      (me i j : ℕ) (pp old : Proc) (ps : Table)
      → ptr_eq pp.parent (some p) ≡ true
      → old ≡ pp
      → j ≡ i
      → get_elem? ps j ≡ some old
      → Holds (wakeup me (chan_of initproc) (set ps i (record pp { parent = initproc }))) j true old
  round_here me i j pp old ps child same e ej =
      subst
        (λ (k : ℕ).
          Holds (wakeup me (chan_of initproc) (set ps k (record pp { parent = initproc }))) j true
            old)
        e
        (subst
          (λ (x : Proc).
            Holds (wakeup me (chan_of initproc) (set ps j (record x { parent = initproc }))) j true
              old)
          same
          (let new : Proc = record old { parent = initproc } in
            then_wakeup me (set ps j new) j true old new (get-set ps j old new ej)
              (adopts p initproc old (ap (λ (q : Proc). ptr_eq q.parent (some p)) same ∙ child))
              refl refl))

  round-Holds :
      (me i : ℕ) (pp : Proc) (ps : Table)
      → get_elem? ps i ≡ some pp
      → (j : ℕ) (old : Proc) → get_elem? ps j ≡ some old
      → Holds (round me i pp ps) j (j == i) old
  round-Holds me i pp ps ei j old ej =
      elim (Bool-cases (ptr_eq pp.parent (some p)))
        as (λ _. Holds (round me i pp ps) j (j == i) old) [
          | inl child ↦
              rw child
                (elim (Bool-cases (j == i))
                  as (λ _.
                    Holds
                      (wakeup me (chan_of initproc) (set ps i (record pp { parent = initproc }))) j
                      (j == i) old) [
                        | inl e ↦
                            let at : j ≡ i = ground (arith, e) in
                            rw e (
                              round_here me i j pp old ps child (same_elem ps i j pp old at ei ej)
                                at ej)
                        | inr e ↦ rw e (
                            then_wakeup me (set ps i (record pp { parent = initproc })) j false old
                              old
                              (get-set_apart ps i j (record pp { parent = initproc })
                                  (ground (arith, e))
                                ∙ ej)
                              (untouched p initproc old) refl refl)
                      ])
          | inr other ↦ rw other (
            old,
            (
              ej,
              passed_over p initproc (j == i) old (λ e.
                  ap (λ (q : Proc). ptr_eq q.parent (some p))
                    (same_elem ps i j pp old (ground (arith, e)) ei ej)
                  ∙ other),
            ),
          )
        ]

  -- The indices that `rounds` rounds from `i` on reach.
  abbrev reached : (i rounds j : ℕ) → Bool
  reached i rounds j = leb i j && ltb j (i + rounds)

  then_rounds :
      (ps : Table) (i rounds j : ℕ) (old mid new : Proc)
      → Reparented p initproc (j == i) old mid
      → Reparented p initproc (reached (i + 1) rounds j) mid new
      → Reparented p initproc (reached i (suc rounds) j) old new
  then_rounds ps i rounds j old mid new r r' =
      let joined : (j == i) || reached (i + 1) rounds j ≡ reached i (suc rounds) j = ground arith in
      let apart : (j == i) && reached (i + 1) rounds j ≡ false = ground arith in
      subst (λ b. Reparented p initproc b old new) joined
        (both p initproc (j == i) (reached (i + 1) rounds j) old mid new apart r r')

  loop_stops :
      (rounds i me : ℕ) (ps : Table)
      → get_elem? ps i ≡ none
      → reparent_loop (suc rounds) i me p initproc ps ≡ ps
  unfolding reparent_loop
  loop_stops rounds i me ps e = rw (e, reparent_loop) refl

  loop_goes :
      (rounds i me : ℕ) (ps : Table) (pp : Proc)
      → get_elem? ps i ≡ some pp
      → reparent_loop (suc rounds) i me p initproc ps
        ≡ reparent_loop rounds (i + 1) me p initproc (round me i pp ps)
  unfolding reparent_loop
  loop_goes rounds i me ps pp e = elim (Bool-cases (ptr_eq pp.parent (some p))) [
    | inl child ↦ rw (e, child, reparent_loop) refl
    | inr other ↦ rw (e, other, reparent_loop) refl
  ]

  loop-Holds :
      (rounds i me : ℕ) (ps : Table) (j : ℕ) (old : Proc)
      → get_elem? ps j ≡ some old
      → Holds (reparent_loop rounds i me p initproc ps) j (reached i rounds j) old
  unfolding reparent_loop
  loop-Holds zero i me ps j old ej = (
    old,
    (ej, let out : reached i 0 j ≡ false = ground arith in rw out (untouched p initproc old)),
  )
  loop-Holds (suc rounds) i me ps j old ej = elim (Option-cases (get_elem? ps i)) [
    | inl e ↦
        let before : j < i = after_none ps i j old e ej in
        let out : reached i (suc rounds) j ≡ false = ground arith in
        rw (loop_stops rounds i me ps e, out) (old, (ej, untouched p initproc old))
    | inr (pp, e) ↦
        let (mid, (em, r)) = round-Holds me i pp ps e j old ej in
        let (new, (en, r')) = loop-Holds rounds (i + 1) me (round me i pp ps) j mid em in
        rw (loop_goes rounds i me ps pp e) (new, (en, then_rounds ps i rounds j old mid new r r'))
  ]

  -- `reparent`, run by the process `me` when the process `p` exits, leaves at each index of the
  -- table the process it found there with its parent replaced by `initproc` when it was `p`, and
  -- with all else as it was, but for processes that sleep on `initproc`, which may be RUNNABLE.
  pub reparent-Reparented :
      (me : ℕ) (ps : Table) (j : ℕ) (old : Proc)
      → get_elem? ps j ≡ some old
      → (new : Proc) × ((get_elem? (reparent me p initproc ps) j ≡ some new)
          × Reparented p initproc true old new)
  unfolding reparent
  reparent-Reparented me ps j old e =
      let lt : j < length ps = get_elem?-lt ps j old e in
      let all : reached 0 (length ps) j ≡ true = ground arith in
      subst (λ b. Holds (reparent_loop (length ps) 0 me p initproc ps) j b old) all
        (loop-Holds (length ps) 0 me ps j old e)
