-- ===== src/User/Pingpong/Parent.antt =====
-- The calls of the parent in lab1/pingpong.c, in every state that is reached.
use my_os_proj.Base.{
  ℕ, zero, suc, ◌≤◌, ◌<◌, ◌≡◌, ◌∙◌, refl, arith, true, false, leb, none, some, [], ◌∷◌,
}
use my_os_proj.User.Pingpong.{Pipes, parent, ping, pong, Buffer, run_call, next_call, step}
use my_os_proj.User.Pingpong.Schedule.{
  View, IsPipe, p_c_view, c_p_view, at, Fits, Goes, closed_read, closed_write, View-eq,
  parent_moves,
}

module _ {Q : Type 0} (pipes : Pipes Q) (view : Q → View) (room : ℕ) (laws : IsPipe pipes view room)
    (enough : 4 ≤ room) (junk : Buffer) where
  open laws use {writes, reads, waits}

  parent_writes :
      (j : ℕ) (q r q' : Q)
      → pipes.write ping q ≡ some q'
      → step pipes parent (at junk 2 j q r) ≡ some (at junk 3 j q' r)
  unfolding next_call
  parent_writes j q r q' e = rw (run_call, e) refl

  parent_reads :
      (j : ℕ) (q r r' : Q)
      → pipes.read 16 r ≡ some (pong, r')
      → step pipes parent (at junk 4 j q r) ≡ some (at junk 5 j q r')
  unfolding next_call
  parent_reads j q r r' e = rw (run_call, e) refl

  pub parent-Goes :
      (i j : ℕ) (q r : Q)
      → Fits view i j q r
      → i < 7
      → (i ≡ 4 → 6 ≤ j)
      → Goes pipes view room laws enough junk parent i j (suc i) j q r
  unfolding next_call
  parent-Goes zero j q r f lt free =
      let m = parent_moves 0 j f.meet lt free in
      (
        pipes.close_read q,
        r,
        refl,
        record {
          meet = m;
          p_c_is =
              closed_read pipes view room laws enough junk q (p_c_view 0 j) f.p_c_is (omega arith)
              ∙ View-eq refl (ground arith) (ground arith);
          c_p_is = f.c_p_is;
        },
      )
  parent-Goes (suc zero) j q r f lt free =
      let m = parent_moves 1 j f.meet lt free in
      (
        q,
        pipes.close_write r,
        refl,
        record {
          meet = m;
          p_c_is = f.p_c_is;
          c_p_is =
              closed_write pipes view room laws enough junk r (c_p_view 1 j) f.c_p_is (omega arith)
              ∙ View-eq refl refl (ground arith);
        },
      )
  parent-Goes (suc (suc zero)) j q r f lt free =
      let m = parent_moves 2 j f.meet lt free in
      let early : leb j 2 ≡ true = ground (arith, f.meet.child_after) in
      let open_end : 0 < (p_c_view 2 j).readers = ground (arith, early) in
      let (q', wrote, is) = writes q ping (rw f.p_c_is open_end) (rw f.p_c_is refl) enough in
      (
        q',
        r,
        parent_writes j q r q' wrote,
        record { meet = m; p_c_is = is ∙ rw (f.p_c_is, early) refl; c_p_is = f.c_p_is },
      )
  parent-Goes (suc (suc (suc zero))) j q r f lt free =
      let m = parent_moves 3 j f.meet lt free in
      (
        pipes.close_write q,
        r,
        refl,
        record {
          meet = m;
          p_c_is =
              closed_write pipes view room laws enough junk q (p_c_view 3 j) f.p_c_is (omega arith)
              ∙ View-eq refl refl (ground arith);
          c_p_is = f.c_p_is;
        },
      )
  parent-Goes (suc (suc (suc (suc zero)))) j q r f lt free =
      let m = parent_moves 4 j f.meet lt free in
      let late : leb 6 j ≡ true = ground (arith, free refl) in
      let (r', got, is) =
        reads r 16 b'p' (b'o' ∷ b'n' ∷ b'g' ∷ []) (rw (f.c_p_is, late) refl) (omega arith) in
      (
        q,
        r',
        parent_reads j q r r' got,
        record {
          meet = m;
          p_c_is = f.p_c_is;
          c_p_is = is ∙ rw f.c_p_is (View-eq (rw late refl) refl refl);
        },
      )
  parent-Goes (suc (suc (suc (suc (suc zero))))) j q r f lt free =
      let m = parent_moves 5 j f.meet lt free in
      (
        q,
        pipes.close_read r,
        refl,
        record {
          meet = m;
          p_c_is = f.p_c_is;
          c_p_is =
              closed_read pipes view room laws enough junk r (c_p_view 5 j) f.c_p_is (omega arith)
              ∙ View-eq refl (ground arith) refl;
        },
      )
  parent-Goes (suc (suc (suc (suc (suc (suc zero)))))) j q r f lt free =
      let m = parent_moves 6 j f.meet lt free in
      let printed : leb 5 j ≡ true = ground (arith, m.parent_after) in
      (q, r, rw printed refl, record { meet = m; p_c_is = f.p_c_is; c_p_is = f.c_p_is })
  parent-Goes (suc (suc (suc (suc (suc (suc (suc i))))))) j q r f lt free = absurd (omega arith)

  -- A process that is blocked or has ended makes no call.
  pub parent_blocked :
      (j : ℕ) (q r : Q) → Fits view 4 j q r → j < 6 → step pipes parent (at junk 4 j q r) ≡ none
  unfolding next_call
  parent_blocked j q r f early =
      let none_yet : leb 6 j ≡ false = ground arith in
      let open_end : leb j 6 ≡ true = ground arith in
      let asleep : pipes.read 16 r ≡ none =
        waits r 16 (rw (f.c_p_is, none_yet) refl) (rw (f.c_p_is, open_end) (omega arith)) in
      rw (run_call, asleep) refl
