-- ===== src/User/Pingpong/Child.antt =====
-- The calls of the child in lab1/pingpong.c, in every state that is reached.
use my_os_proj.Base.{
  ℕ, zero, suc, ◌≤◌, ◌<◌, ◌≡◌, ◌∙◌, refl, arith, true, false, leb, none, some, [], ◌∷◌,
}
use my_os_proj.User.Pingpong.{Pipes, child, ping, pong, Buffer, run_call, next_call, step}
use my_os_proj.User.Pingpong.Schedule.{
  View, IsPipe, p_c_view, c_p_view, at, Fits, Goes, closed_read, closed_write, View-eq, child_moves,
}

module _ {Q : Type 0} (pipes : Pipes Q) (view : Q → View) (room : ℕ) (laws : IsPipe pipes view room)
    (enough : 4 ≤ room) (junk : Buffer) where
  open laws use {writes, reads, waits}

  child_reads :
      (i : ℕ) (q r q' : Q)
      → pipes.read 16 q ≡ some (ping, q')
      → step pipes child (at junk i 2 q r) ≡ some (at junk i 3 q' r)
  unfolding next_call
  child_reads i q r q' e = rw (run_call, e) refl

  child_writes :
      (i : ℕ) (q r r' : Q)
      → pipes.write pong r ≡ some r'
      → step pipes child (at junk i 5 q r) ≡ some (at junk i 6 q r')
  unfolding next_call
  child_writes i q r r' e = rw (run_call, e) refl

  pub child-Goes :
      (i j : ℕ) (q r : Q)
      → Fits view i j q r
      → j < 7
      → (j ≡ 2 → 3 ≤ i)
      → Goes pipes view room laws enough junk child i j i (suc j) q r
  unfolding next_call
  child-Goes i zero q r f lt free =
      let m = child_moves i 0 f.meet lt free in
      (
        pipes.close_write q,
        r,
        refl,
        record {
          meet = m;
          p_c_is =
              closed_write pipes view room laws enough junk q (p_c_view i 0) f.p_c_is (omega arith)
              ∙ View-eq refl refl (ground arith);
          c_p_is = f.c_p_is;
        },
      )
  child-Goes i (suc zero) q r f lt free =
      let m = child_moves i 1 f.meet lt free in
      (
        q,
        pipes.close_read r,
        refl,
        record {
          meet = m;
          p_c_is = f.p_c_is;
          c_p_is =
              closed_read pipes view room laws enough junk r (c_p_view i 1) f.c_p_is (omega arith)
              ∙ View-eq refl (ground arith) refl;
        },
      )
  child-Goes i (suc (suc zero)) q r f lt free =
      let m = child_moves i 2 f.meet lt free in
      let late : leb 3 i ≡ true = ground (arith, free refl) in
      let (q', got, is) =
        reads q 16 b'p' (b'i' ∷ b'n' ∷ b'g' ∷ []) (rw (f.p_c_is, late) refl) (omega arith) in
      (
        q',
        r,
        child_reads i q r q' got,
        record {
          meet = m;
          p_c_is = is ∙ rw f.p_c_is (View-eq (rw late refl) refl refl);
          c_p_is = f.c_p_is;
        },
      )
  child-Goes i (suc (suc (suc zero))) q r f lt free =
      let m = child_moves i 3 f.meet lt free in
      (
        pipes.close_read q,
        r,
        refl,
        record {
          meet = m;
          p_c_is =
              closed_read pipes view room laws enough junk q (p_c_view i 3) f.p_c_is (omega arith)
              ∙ View-eq refl (ground arith) refl;
          c_p_is = f.c_p_is;
        },
      )
  child-Goes i (suc (suc (suc (suc zero)))) q r f lt free =
      let m = child_moves i 4 f.meet lt free in
      let not_printed : leb 7 i ≡ false = ground (arith, f.meet.parent_after) in
      (q, r, rw not_printed refl, record { meet = m; p_c_is = f.p_c_is; c_p_is = f.c_p_is })
  child-Goes i (suc (suc (suc (suc (suc zero))))) q r f lt free =
      let m = child_moves i 5 f.meet lt free in
      let early : leb i 4 ≡ true = ground (arith, f.meet.parent_after) in
      let open_end : 0 < (c_p_view i 5).readers = ground (arith, early) in
      let (r', wrote, is) = writes r pong (rw f.c_p_is open_end) (rw f.c_p_is refl) enough in
      (
        q,
        r',
        child_writes i q r r' wrote,
        record { meet = m; p_c_is = f.p_c_is; c_p_is = is ∙ rw (f.c_p_is, early) refl },
      )
  child-Goes i (suc (suc (suc (suc (suc (suc zero)))))) q r f lt free =
      let m = child_moves i 6 f.meet lt free in
      (
        q,
        pipes.close_write r,
        refl,
        record {
          meet = m;
          p_c_is = f.p_c_is;
          c_p_is =
              closed_write pipes view room laws enough junk r (c_p_view i 6) f.c_p_is (omega arith)
              ∙ View-eq refl refl (ground arith);
        },
      )
  child-Goes i (suc (suc (suc (suc (suc (suc (suc j))))))) q r f lt free = absurd (omega arith)

  pub child_blocked :
      (i : ℕ) (q r : Q) → Fits view i 2 q r → i < 3 → step pipes child (at junk i 2 q r) ≡ none
  unfolding next_call
  child_blocked i q r f early =
      let none_yet : leb 3 i ≡ false = ground arith in
      let open_end : leb i 3 ≡ true = ground arith in
      let asleep : pipes.read 16 q ≡ none =
        waits q 16 (rw (f.p_c_is, none_yet) refl) (rw (f.p_c_is, open_end) (omega arith)) in
      rw (run_call, asleep) refl
