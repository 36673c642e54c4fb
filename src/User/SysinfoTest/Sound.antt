-- ===== src/User/SysinfoTest/Sound.antt =====
-- What a run of `testmem` in sysinfotest.c that comes to its end has seen.
use my_os_proj.Base.{
  ℕ, zero, suc, ◌+◌, ◌-◌, ◌*◌, ◌%◌, ◌^◌, ◌≡◌, ◌≢◌, inl, inr, sym, ◌∙◌, ap, subst, arith, ◌==◌,
  Option, some, if◌then◌else◌, Bool-cases,
}
use my_os_proj.Kernel.{page_size, u64, sign_extend}
use my_os_proj.User.SysinfoTest.Runs.{
  and_then-ok, ok_eq, equal_of, other_of, answered, tested, not_tested, else_of, grown-ok,
}
use my_os_proj.User.SysinfoTest.{
  Info, Calls, Session, ok, minus_one, give_back, sinfo, grow_all, countfree, testmem, grown,
  Message, expect_free, must_sbrk,
}

module _ {S : Type 0} (c : Calls S) where
  abbrev pub after_sbrk : ℕ → S → S
  after_sbrk n t = (c.sbrk n t).1

  abbrev pub after_sysinfo : S → S
  after_sysinfo t = (c.sysinfo t).1

  -- `sbrk` returns an address, not -1.
  abbrev pub Grants : ℕ → S → Type 0
  Grants n t = (c.sbrk n t).0 ≢ minus_one

  -- `sysinfo` reports so many free bytes.
  abbrev pub Reports : S → ℕ → Type 0
  Reports t n = (info : Info) × (((c.sysinfo t).0 ≡ some info) × (info.freemem ≡ n))

  -- `sbrk` grants so many pages, one after another, and then fails.
  pub data Grows : (pages : ℕ) → S → S → Type 0 where
    stops : (t : S) → (c.sbrk page_size t).0 ≡ minus_one → Grows 0 t (after_sbrk page_size t)
    grows :
        {k : ℕ} {full : S} (t : S)
        → Grants page_size t
        → Grows k (after_sbrk page_size t) full
        → Grows (suc k) t full

  -- The number of bytes that `testmem` expects to be free, an int as a uint64.
  abbrev pub counted : (pages : ℕ) → ℕ
  counted pages = sign_extend (pages * page_size % 2 ^ 32)

  -- The states between the calls of `testmem`, and what the calls report in them.
  pub record Observed (start : S) : Type 0 where
    pub pages : ℕ
    pub full : S
    pub grew : Grows pages (after_sbrk 0 start) full
    pub none_free : Reports full 0
    pub back : S
    pub gave_all_back :
        back
        ≡ after_sbrk
            (give_back (c.sbrk 0 (after_sysinfo full)).0 (c.sbrk 0 start).0)
            (after_sbrk 0 (after_sysinfo full))
    pub all_free : Reports back (counted pages)
    pub took : Grants page_size (after_sysinfo back)
    pub one_less :
        Reports
          (after_sbrk page_size (after_sysinfo back))
          (u64 (counted pages + 2 ^ 64 - page_size))
    pub gave :
        Grants (2 ^ 32 - page_size) (after_sysinfo (after_sbrk page_size (after_sysinfo back)))
    pub all_again :
        Reports
          (after_sbrk
            (2 ^ 32 - page_size)
            (after_sysinfo (after_sbrk page_size (after_sysinfo back))))
          (counted pages)

  -- `sinfo` comes back only with a report.
  sinfo-ok :
      (s t : Session S) (info : Info)
      → sinfo c s ≡ ok info t
      → ((c.sysinfo s.system).0 ≡ some info) × (t.system ≡ after_sysinfo s.system)
  unfolding sinfo
  sinfo-ok s t info h =
      let (e, same) =
        answered c (c.sysinfo s.system).0 Message.sysinfo_failed
          (record s { system = after_sysinfo s.system }) t info h in
      (e, ap (λ (u : Session S). u.system) same)

  expect_free-ok :
      (n : ℕ) (m : ℕ → Message) (s t : Session S) (x : Unit {0})
      → expect_free c n m s ≡ ok x t
      → Reports s.system n × (t.system ≡ after_sysinfo s.system)
  expect_free-ok n m s t x h =
      let (info, (u, (told, test))) = and_then-ok (sinfo c s) _ x t h in
      let (report, next) = sinfo-ok s u info told in
      let (same, last) = tested c (info.freemem == n) (m info.freemem) u t x test in
      ((info, (report, equal_of info.freemem n same)), ap (λ (v : Session S). v.system) last ∙ next)

  must_sbrk-ok :
      (n : ℕ) (s t : Session S) (x : Unit {0})
      → must_sbrk c n s ≡ ok x t
      → Grants n s.system × (t.system ≡ after_sbrk n s.system)
  must_sbrk-ok n s t x h =
      let (granted, same) =
        not_tested c ((c.sbrk n s.system).0 == minus_one) Message.sbrk_failed
          (record s { system = after_sbrk n s.system }) t x h in
      (other_of (c.sbrk n s.system).0 minus_one granted, ap (λ (u : Session S). u.system) same)

  pair_eq :
      (n count : ℕ) (t full : S)
      → ◌≡◌ {A = Option (ℕ × S)} (some (n, t)) (some (count, full))
      → (n ≡ count) × (t ≡ full)
  pair_eq n count t full h = (cc, cc)

  grow_all-Grows :
      (fuel n pages : ℕ) (t full : S) (count : ℕ)
      → n ≡ pages * page_size % 2 ^ 32
      → grow_all c fuel n t ≡ some (count, full)
      → (k : ℕ) × (Grows k t full × (count ≡ (pages + k) * page_size % 2 ^ 32))
  unfolding grow_all
  grow_all-Grows zero n pages t full count e h = cc
  grow_all-Grows (suc fuel) n pages t full count e h =
      elim (Bool-cases ((c.sbrk page_size t).0 == minus_one)) [
        | inl failed ↦
            let here : ◌≡◌ {A = Option (ℕ × S)} (some (n, after_sbrk page_size t))
                (some (count, full)) =
              subst
                (λ b.
                  (if b
                    then some (n, after_sbrk page_size t)
                    else grow_all c fuel ((n + page_size) % 2 ^ 32) (after_sbrk page_size t))
                  ≡ some (count, full))
                failed h in
            let (number, place) = pair_eq n count (after_sbrk page_size t) full here in
            (
              0,
              (
                subst (λ u. Grows 0 t u) place
                    (Grows.stops t (equal_of (c.sbrk page_size t).0 minus_one failed)),
                omega (arith, number, e),
              ),
            )
        | inr granted ↦
            let later : grow_all c fuel ((n + page_size) % 2 ^ 32) (after_sbrk page_size t)
                ≡ some (count, full) =
              subst
                (λ b.
                  (if b
                    then some (n, after_sbrk page_size t)
                    else grow_all c fuel ((n + page_size) % 2 ^ 32) (after_sbrk page_size t))
                  ≡ some (count, full))
                granted h in
            let (k, (rest, number)) =
              grow_all-Grows fuel ((n + page_size) % 2 ^ 32) (pages + 1) (after_sbrk page_size t)
                full count (omega (arith, e)) later in
            (
              suc k,
              (
                Grows.grows t (other_of (c.sbrk page_size t).0 minus_one granted) rest,
                omega (arith, number),
              ),
            )
      ]

  -- What `countfree` has seen where it comes back with a number.
  pub record Emptied (start : S) (count : ℕ) (back : S) : Type 0 where
    pages : ℕ
    full : S
    grew : Grows pages (after_sbrk 0 start) full
    none_free : Reports full 0
    back_eq :
        back
        ≡ after_sbrk
            (give_back (c.sbrk 0 (after_sysinfo full)).0 (c.sbrk 0 start).0)
            (after_sbrk 0 (after_sysinfo full))
    count_eq : count ≡ pages * page_size % 2 ^ 32

  countfree-Emptied :
      (fuel count : ℕ) (s t : Session S)
      → countfree c fuel s ≡ ok count t
      → Emptied s.system count t.system
  unfolding countfree
  countfree-Emptied fuel count s t h =
      let start = after_sbrk 0 s.system in
      let (n, (u, (got, rest))) =
        and_then-ok (grown c (grow_all c fuel 0 start) (record s { system = start })) _ count t h in
      let (k, (grew, number)) =
        grow_all-Grows fuel 0 0 start u.system n (omega arith)
          (grown-ok c (grow_all c fuel 0 start) (record s { system = start }) u n got) in
      let (info, (v, (told, last))) = and_then-ok (sinfo c u) _ count t rest in
      let (report, next) = sinfo-ok u v info told in
      let (none_left, gives) =
        else_of c (info.freemem == 0) (Message.no_free_mem (info.freemem % 2 ^ 32)) _ v t count
          last in
      let (same, ended) = ok_eq n count _ t gives in
      record {
        pages = k;
        full = u.system;
        grew = grew;
        none_free = (info, (report, equal_of info.freemem 0 none_left));
        back_eq =
            sym (ap (λ (w : Session S). w.system) ended)
            ∙ ap (λ x. after_sbrk (give_back (c.sbrk 0 x).0 (c.sbrk 0 s.system).0) (after_sbrk 0 x))
                next;
        count_eq = omega (arith, same, number);
      }

  -- Take any system calls. If `testmem` comes to its end, then the calls have reported this, in this
  -- order: `sbrk` granted some number of pages, one after another, and then failed; `sysinfo`
  -- reported no free bytes; after the program gave back what it had taken, as many bytes as the
  -- pages have, as an int; after one page more was granted, 4096 bytes less; and after that page
  -- was given back, the first number again.
  pub testmem-Observed :
      (fuel : ℕ) (s t : Session S) → testmem c fuel s ≡ ok tt t → Observed s.system
  unfolding testmem
  testmem-Observed fuel s t h =
      let (count, (s0, (counts, h0))) = and_then-ok (countfree c fuel s) _ tt t h in
      let e = countfree-Emptied fuel count s s0 counts in
      let n_eq : sign_extend count ≡ counted e.pages = ap sign_extend e.count_eq in
      let (x1, (s1, (first, h1))) =
        and_then-ok (expect_free c (sign_extend count) _ s0) _ tt t h0 in
      let (x2, (s2, (grow, h2))) = and_then-ok (must_sbrk c page_size s1) _ tt t h1 in
      let less = u64 (sign_extend count + 2 ^ 64 - page_size) in
      let (x3, (s3, (second, h3))) = and_then-ok (expect_free c less _ s2) _ tt t h2 in
      let (x4, (s4, (shrink, third))) =
        and_then-ok (must_sbrk c (2 ^ 32 - page_size) s3) _ tt t h3 in
      let (all_free, e1) = expect_free-ok (sign_extend count) _ s0 s1 x1 first in
      let (took, e2) = must_sbrk-ok page_size s1 s2 x2 grow in
      let (one_less, e3) = expect_free-ok less _ s2 s3 x3 second in
      let (gave, e4) = must_sbrk-ok (2 ^ 32 - page_size) s3 s4 x4 shrink in
      let (all_again, _) = expect_free-ok (sign_extend count) _ s4 t tt third in
      let at2 = e2 ∙ ap (after_sbrk page_size) e1 in
      let at3 = e3 ∙ ap after_sysinfo at2 in
      let at4 = e4 ∙ ap (after_sbrk (2 ^ 32 - page_size)) at3 in
      record {
        pages = e.pages;
        full = e.full;
        grew = e.grew;
        none_free = e.none_free;
        back = s0.system;
        gave_all_back = e.back_eq;
        all_free = subst (Reports s0.system) n_eq all_free;
        took = subst (Grants page_size) e1 took;
        one_less =
            subst (λ u. Reports u (u64 (counted e.pages + 2 ^ 64 - page_size))) at2
              (subst (λ n. Reports s2.system (u64 (n + 2 ^ 64 - page_size))) n_eq one_less);
        gave = subst (Grants (2 ^ 32 - page_size)) at3 gave;
        all_again =
            subst (λ u. Reports u (counted e.pages)) at4 (subst (Reports s4.system) n_eq all_again);
      }
