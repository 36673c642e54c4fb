-- ===== src/Vm/Map.antt =====
-- `mappages`: the loop over the pages of a range.
use my_os_proj.Base.{
  ℕ, zero, suc, ◌+◌, ◌-◌, ◌*◌, ◌/◌, ◌%◌, ◌^◌, ◌<◌, ◌≤◌, ◌≡◌, ◌≢◌, inl, inr, refl, ◌∙◌, ap, arith,
  Bool, true, false, List, [], if◌then◌else◌, ◌==◌,
}
use my_os_proj.Kernel.{Platform, Kernel, Run, ok, Cmd, pure, maxva, u64}
use my_os_proj.Pte.{is_valid, leaf}
use my_os_proj.Paging.{Roles, free, used, root, Inv, view}
use my_os_proj.Paging.Growth.{Growth, unused_trans}
use my_os_proj.Vm.{map_loop, mappages, page_rounds}
use my_os_proj.Vm.Step.{Space, with_page}
use my_os_proj.Vm.Mapped.{Unmapped, MapResult, map_page-round, Space-none, Space-one, Space-cons}

-- The rest of the loop, after a round that maps a page.
rounds : (f pt a last pa perm : ℕ) → Cmd Bool
rounds f pt a last pa perm k' = map_loop f pt (u64 (a + 4096)) last (u64 (pa + 4096)) perm k'

go_on :
    (f pt a last pa perm : ℕ) (k' : Kernel)
    → (a == last) ≡ false
    → a < maxva
    → pa < 2 ^ 56
    → (if a == last then pure true else rounds f pt a last pa perm) k'
      ≡ map_loop f pt (a + 4096) last (pa + 4096) perm k'
unfolding rounds
go_on f pt a last pa perm k' ne low short =
    let sum : u64 (a + 4096) ≡ a + 4096 = omega arith in
    let sum' : u64 (pa + 4096) ≡ pa + 4096 = omega arith in rw (ne, sum, sum')

-- The number of pages that a range of addresses touches.
abbrev pub pages_of : ℕ → ℕ → ℕ
pages_of va size = suc ((va + size - 1) / 4096 - va / 4096)

module _ {P : Platform} where
  -- What is unmapped behind a page stays so when the page is mapped.
  Unmapped-tail :
      {role roles : Roles} {k after : Kernel} {pages : List ℕ} (pt a n pa perm : ℕ)
      → a % 4096 ≡ 0
      → role pt ≡ root
      → a + 4096 * suc n ≤ maxva
      → Space P role k (with_page k.mem pt a (leaf pa perm)) roles pages after
      → Unmapped k.mem pt a (suc n)
      → Unmapped after.mem pt (a + 4096) n
  Unmapped-tail {k} pt a n pa perm al e fits s clear va lo hi =
      let other : (va / 4096 == a / 4096) ≡ false = ground arith in
      let same : with_page k.mem pt a (leaf pa perm) pt va ≡ view k.mem pt va = ground arith in
      ap (λ x. is_valid x) (s.views pt va e (omega arith) ∙ same)
      ∙ clear va (omega arith) (omega arith)

  map_nothing :
      {role : Roles} {k : Kernel} {r : Run Bool} (pt a n pa perm : ℕ) (after : Kernel)
      (roles : Roles)
      → r ≡ ok false after
      → Growth P role k roles [] after
      → MapResult P role k pt a (suc n) pa perm r
  map_nothing pt a n pa perm after roles run growth = record {
    n = 0;
    done = false;
    after = after;
    roles = roles;
    pages = [];
    run = run;
    space = Space-none pt a pa perm growth;
    unused = growth.unused;
    ending = inr (refl, omega arith, refl);
  }

  map_cons :
      {role roles : Roles} {k after : Kernel} {pages : List ℕ} {r r' : Run Bool}
      (pt a n pa perm : ℕ)
      → a % 4096 ≡ 0
      → r ≡ r'
      → Space P role k (with_page k.mem pt a (leaf pa perm)) roles pages after
      → ((x : ℕ) → role x ≡ free → roles x ≢ used)
      → MapResult P roles after pt (a + 4096) n (pa + 4096) perm r'
      → MapResult P role k pt a (suc n) pa perm r
  map_cons pt a n pa perm al same space unused rest = record {
    n = suc rest.n;
    done = rest.done;
    after = rest.after;
    roles = rest.roles;
    pages = rest.pages;
    run = same ∙ rest.run;
    space = Space-cons pt a rest.n pa perm al space rest.space;
    unused = unused_trans space.keeps unused rest.space.keeps rest.unused;
    ending = ground (arith, rest.ending);
  }

  pub map_loop-MapResult :
      (n fuel pt a last pa perm : ℕ) (role : Roles) (ps : List ℕ) (k : Kernel)
      → Inv P role ps k
      → role pt ≡ root
      → a % 4096 ≡ 0
      → a + 4096 * n ≡ last
      → last < maxva
      → pa % 4096 ≡ 0
      → pa + 4096 * n < 2 ^ 56
      → perm < 1024
      → Unmapped k.mem pt a (suc n)
      → n < fuel
      → MapResult P role k pt a (suc n) pa perm (map_loop fuel pt a last pa perm k)
  unfolding map_loop rounds
  map_loop-MapResult n zero pt a last pa perm role ps k inv e al at_last low pal short flags clear
        enough =
      absurd (omega arith)
  map_loop-MapResult zero (suc f) pt a last pa perm role ps k inv e al at_last low pal short flags
        clear enough =
      let here : (a == last) ≡ true = ground arith in
      elim (map_page-round inv pt a last pa perm e (omega arith)
        (clear a (omega arith) (omega arith)) (rounds f pt a last pa perm) (omega arith) pal
        flags) [
          | inl s ↦ map_nothing pt a 0 pa perm s.after s.roles s.run s.growth
          | inr s ↦ record {
            n = 1;
            done = true;
            after = s.after;
            roles = s.roles;
            pages = s.pages;
            run = s.run ∙ (rw here);
            space = Space-one pt a pa perm al s.space;
            unused = s.unused;
            ending = inl (refl, refl);
          }
        ]
  map_loop-MapResult (suc n) (suc f) pt a last pa perm role ps k inv e al at_last low pal short
        flags clear enough =
      let more : (a == last) ≡ false = ground arith in
      elim (map_page-round inv pt a last pa perm e (omega arith)
        (clear a (omega arith) (omega arith)) (rounds f pt a last pa perm) (omega arith) pal
        flags) [
          | inl s ↦ map_nothing pt a (suc n) pa perm s.after s.roles s.run s.growth
          | inr s ↦
              map_cons pt a (suc n) pa perm al
                (s.run ∙ go_on f pt a last pa perm s.after more (omega arith) (omega arith)) s.space
                s.unused
                (map_loop-MapResult n f pt (a + 4096) last (pa + 4096) perm s.roles s.pages s.after
                  s.space.inv (s.space.keeps pt (λ z. cc) ∙ e) (omega arith) (omega arith) low
                  (omega arith) (omega arith) flags
                  (Unmapped-tail pt a (suc n) pa perm al e (omega arith) s.space clear)
                  (omega arith))
        ]

  -- On a range of a root that lies below `maxva` and is unmapped, `mappages` with a size that is
  -- not 0 maps the pages that the range touches, in order, and changes no other entry of any
  -- address space. It returns 0 if it has mapped them all, and -1 only when no free page is left.
  pub mappages-MapResult :
      (pt va size pa perm : ℕ) (role : Roles) (ps : List ℕ) (k : Kernel)
      → Inv P role ps k
      → role pt ≡ root
      → 0 < size
      → va + size ≤ maxva
      → pa % 4096 ≡ 0
      → pa + 4096 * pages_of va size ≤ 2 ^ 56
      → perm < 1024
      → Unmapped k.mem pt (va / 4096 * 4096) (pages_of va size)
      → MapResult P role k pt
          (va / 4096 * 4096)
          (pages_of va size)
          pa
          perm
          (mappages P pt va size pa perm k)
  unfolding mappages
  mappages-MapResult pt va size pa perm role ps k inv e pos low pal short flags clear =
      let nonzero : (size == 0) ≡ false = ground arith in
      let fits : u64 (va + size - 1) ≡ va + size - 1 = omega arith in
      rw (nonzero, fits, P.pgrounddown_lem va, P.pgrounddown_lem (va + size - 1))
        (map_loop-MapResult ((va + size - 1) / 4096 - va / 4096) page_rounds pt (va / 4096 * 4096)
          ((va + size - 1) / 4096 * 4096) pa perm role ps k inv e (omega arith) (omega arith)
          (omega arith) pal (omega arith) flags clear (omega arith))
