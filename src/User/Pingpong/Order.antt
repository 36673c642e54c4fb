-- ===== src/User/Pingpong/Order.antt =====
-- The two processes of lab1/pingpong.c in any order: they end, and the child prints first.
use my_os_proj.Base.{
  ℕ, suc, ◌+◌, ◌≤◌, ◌<◌, ◌≡◌, ◌⊎◌, inl, inr, refl, subst, arith, none, some, [], ◌∷◌, dec_lt,
  ℕ_discrete,
}
use my_os_proj.User.Pingpong.{
  Pipes, Who, parent, child, ping, pong, Buffer, fill, World, next_call, step, start, Reaches,
  begin, then_step,
}
use my_os_proj.User.Pingpong.Schedule.{View, IsPipe, at, Fits, Goes}
use my_os_proj.User.Pingpong.Parent.{parent-Goes, parent_blocked}
use my_os_proj.User.Pingpong.Child.{child-Goes, child_blocked}

module _ {Q : Type 0} (pipes : Pipes Q) (view : Q → View) (room : ℕ) (laws : IsPipe pipes view room)
    (enough : 4 ≤ room) (junk : Buffer) where
  open laws use {new}

  parent_next :
      (i j : ℕ) (q r : Q)
      → Fits view i j q r
      → ((step pipes parent (at junk i j q r) ≡ none) × ((i ≡ 7) ⊎ ((i ≡ 4) × (j < 6))))
        ⊎ Goes pipes view room laws enough junk parent i j (suc i) j q r
  unfolding next_call
  parent_next i j q r f = elim (ℕ_discrete i 7) [
    | yes ended ↦ inl (rw ended refl, inl ended)
    | no more ↦ elim (ℕ_discrete i 4) [
      | yes reads ↦ elim (dec_lt j 6) [
        | yes early ↦ inl (
          rw reads (
              parent_blocked pipes view room laws enough junk j q r
                (subst (λ x. Fits view x j q r) reads f) early),
          inr (reads, early),
        )
        | no late ↦ inr (
            parent-Goes pipes view room laws enough junk i j q r f
              (omega (arith, f.meet.parent_ends)) (λ _. omega arith))
      ]
      | no other ↦ inr (
          parent-Goes pipes view room laws enough junk i j q r f (omega (arith, f.meet.parent_ends))
            (λ e. absurd (other e)))
    ]
  ]

  child_next :
      (i j : ℕ) (q r : Q)
      → Fits view i j q r
      → ((step pipes child (at junk i j q r) ≡ none) × ((j ≡ 7) ⊎ ((j ≡ 2) × (i < 3))))
        ⊎ Goes pipes view room laws enough junk child i j i (suc j) q r
  unfolding next_call
  child_next i j q r f = elim (ℕ_discrete j 7) [
    | yes ended ↦ inl (rw ended refl, inl ended)
    | no more ↦ elim (ℕ_discrete j 2) [
      | yes reads ↦ elim (dec_lt i 3) [
        | yes early ↦ inl (
          rw reads (
              child_blocked pipes view room laws enough junk i q r
                (subst (λ x. Fits view i x q r) reads f) early),
          inr (reads, early),
        )
        | no late ↦ inr (
            child-Goes pipes view room laws enough junk i j q r f (omega (arith, f.meet.child_ends))
              (λ _. omega arith))
      ]
      | no other ↦ inr (
          child-Goes pipes view room laws enough junk i j q r f (omega (arith, f.meet.child_ends))
            (λ e. absurd (other e)))
    ]
  ]

  record Located (n : ℕ) (s : World Q) : Type 0 where
    i : ℕ
    j : ℕ
    q : Q
    r : Q
    steps : n ≡ i + j
    is : s ≡ at junk i j q r
    fits : Fits view i j q r

  begin-Located : Located 0 (start pipes junk)
  begin-Located = record {
    i = 0;
    j = 0;
    q = pipes.inherit pipes.opened;
    r = pipes.inherit pipes.opened;
    steps = refl;
    is = refl;
    fits = record {
      meet = record {
        child_after = λ h. absurd (omega arith);
        parent_after = λ h. absurd (omega arith);
        parent_ends = omega arith;
        child_ends = omega arith;
      };
      p_c_is = new;
      c_p_is = new;
    };
  }

  step-Located :
      (n : ℕ) (s t : World Q) (who : Who)
      → Located n s
      → step pipes who s ≡ some t
      → Located (suc n) t
  step-Located n s t parent l e =
      let e' : step pipes parent (at junk l.i l.j l.q l.r) ≡ some t =
        subst (λ x. step pipes parent x ≡ some t) l.is e in
      elim (parent_next l.i l.j l.q l.r l.fits) [
        | inl (stuck, why) ↦ absurd (cc (stuck, e'))
        | inr (q', r', goes, f) ↦ record {
          i = suc l.i;
          j = l.j;
          q = q';
          r = r';
          steps = omega (arith, l.steps);
          is = cc (goes, e');
          fits = f;
        }
      ]
  step-Located n s t child l e =
      let e' : step pipes child (at junk l.i l.j l.q l.r) ≡ some t =
        subst (λ x. step pipes child x ≡ some t) l.is e in
      elim (child_next l.i l.j l.q l.r l.fits) [
        | inl (stuck, why) ↦ absurd (cc (stuck, e'))
        | inr (q', r', goes, f) ↦ record {
          i = l.i;
          j = suc l.j;
          q = q';
          r = r';
          steps = omega (arith, l.steps);
          is = cc (goes, e');
          fits = f;
        }
      ]

  Reaches-Located : {n : ℕ} {s : World Q} → Reaches pipes junk n s → Located n s
  Reaches-Located begin = begin-Located
  Reaches-Located (then_step {n} {s} {t} who r e) = step-Located n s t who (Reaches-Located r) e

  -- Over pipes that are queues with room for four bytes, whatever the order of the steps of the two
  -- processes, after 14 steps both have made all their calls, the child has printed first and then
  -- the parent, the child "ping" and the parent "pong", each followed by the bytes that were behind
  -- on the stack.
  pub Reaches-printed :
      (s : World Q)
      → Reaches pipes junk 14 s
      → (s.printed ≡ (child, fill ping junk) ∷ (parent, fill pong junk) ∷ [])
        × (s.parent.calls ≡ [])
        × (s.child.calls ≡ [])
  Reaches-printed s reached =
      let l = Reaches-Located reached in
      let i7 : l.i ≡ 7 = omega (arith, l.steps, l.fits.meet.parent_ends, l.fits.meet.child_ends) in
      let j7 : l.j ≡ 7 = omega (arith, l.steps, l.fits.meet.parent_ends, l.fits.meet.child_ends) in
      (rw (l.is, i7, j7) refl, rw (l.is, i7) refl, rw (l.is, j7) refl)

  -- Over pipes that are queues with room for four bytes, no order of their steps makes the two
  -- processes wait for each other: they make at most 14 steps together, and as long as they have
  -- made fewer, one of them can take a step.
  pub Reaches_progress :
      (n : ℕ) (s : World Q)
      → Reaches pipes junk n s
      → (n ≤ 14) × (n < 14 → (who : Who) × (t : World Q) × (step pipes who s ≡ some t))
  Reaches_progress n s reached =
      let l = Reaches-Located reached in
      (
        omega (arith, l.steps, l.fits.meet.parent_ends, l.fits.meet.child_ends),
        λ more. elim (parent_next l.i l.j l.q l.r l.fits) [
          | inr (q', r', goes, f) ↦ (parent, at junk (suc l.i) l.j q' r', rw l.is goes)
          | inl (stuck, why) ↦ elim (child_next l.i l.j l.q l.r l.fits) [
            | inr (q', r', goes, f) ↦ (child, at junk l.i (suc l.j) q' r', rw l.is goes)
            | inl (stuck', why') ↦ absurd (ground (arith, why, why', l.steps, more))
          ]
        ],
      )
