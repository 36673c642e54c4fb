-- ===== src/Uvm/Copied.antt =====
-- `uvmcopy` of lab3/vm.c: the child of `fork` gets a copy of the memory of its parent.
use my_os_proj.Base.{
  ℕ, zero, suc, ◌+◌, ◌*◌, ◌/◌, ◌≤◌, ◌<◌, ◌≡◌, ◌≢◌, ◌⊎◌, inl, inr, refl, sym, ◌∙◌, ap, subst, arith,
  Bool, true, false, List, ltb,
}
use my_os_proj.Memory.{Memory}
use my_os_proj.Kernel.{Platform, Kernel, Run, ok, maxva, u64, pure, ◌>>◌}
use my_os_proj.Kalloc.FreeList.{IsFrame}
use my_os_proj.Pte.{is_valid, pte2pa, pte_flags}
use my_os_proj.Paging.{Roles, root, used, Inv, view}
use my_os_proj.Vm.{page_rounds, uvmunmap}
use my_os_proj.Vm.Release.{is_leaf}
use my_os_proj.Vm.Unmap.{uvmunmap-Unmapping}
use my_os_proj.Uvm.{uvmcopy, copy_loop}
use my_os_proj.Uvm.Dealloc.{pages_up}
use my_os_proj.Uvm.Fresh.{Fresh}
use my_os_proj.Uvm.Backed.{Backed, Backed-none, Backed-suc, Backed-Space}
use my_os_proj.Uvm.Rollback.{Backed-Leaves, Backed-undo, Backed-unused}
use my_os_proj.Uvm.Alloc.{Undone}
use my_os_proj.Uvm.CopyPage.{Copied, NotCopied, copy_page-round, source_page}

-- The first `n` pages below a root are mapped by leaf entries, to user pages.
pub record Sources (P : Platform) (role : Roles) (m : Memory) (old n : ℕ) : Type 0 where
  pub mapped : (i : ℕ) → i < n → is_leaf (view m old (4096 * i)) ≡ true
  pub owned : (i : ℕ) → i < n → role (source_page m old (4096 * i)) ≡ used
  pub frames : (i : ℕ) → i < n → IsFrame P (source_page m old (4096 * i))

-- The flags and the bytes of the page `i`.
abbrev pub flags_of : (m : Memory) (old i : ℕ) → ℕ
flags_of m old i = pte_flags (view m old (4096 * i))

abbrev pub byte_of : (m : Memory) (old i offset : ℕ) → ℕ
byte_of m old i offset = m (source_page m old (4096 * i) + offset)

-- The first `n` pages below `new` are copies, in frames that were free.
abbrev pub Copies :
    (P : Platform) (role : Roles) (k : Kernel) (old new n : ℕ) (roles : Roles) (pages : List ℕ)
    (after : Kernel)
    → Type 0
Copies P role k old new n roles pages after =
    Backed P role k new 0 n (λ i. flags_of k.mem old i) (λ i offset. byte_of k.mem old i offset)
      roles pages after

pub record Copying (P : Platform) (role : Roles) (k : Kernel) (old new n : ℕ) (r : Run Bool)
    : Type 0 where
  pub after : Kernel
  pub roles : Roles
  pub pages : List ℕ
  pub run : r ≡ ok true after
  pub copies : Copies P role k old new n roles pages after

abbrev pub CopyResult :
    (P : Platform) (role : Roles) (k : Kernel) (old new n : ℕ) (r : Run Bool) → Type 0
CopyResult P role k old new n r = Undone P role k false r ⊎ Copying P role k old new n r

module _ {P : Platform} {role : Roles} (k : Kernel) (old new n_pages : ℕ)
    (old_root : role old ≡ root) (new_root : role new ≡ root) (apart : old ≢ new)
    (low : 4096 * n_pages ≤ maxva) (sources : Sources P role k.mem old n_pages)
    (clear : (va : ℕ) → va < 4096 * n_pages → view k.mem new va ≡ 0) where
  flags_ok : (i : ℕ) → i < n_pages → (2 ≤ flags_of k.mem old i) × (flags_of k.mem old i < 1024)
  flags_ok i h = let leaf = sources.mapped i h in ground arith

  module _ {roles : Roles} {pages : List ℕ} {mid : Kernel} (n : ℕ) (more : n < n_pages)
      (b : Copies P role k old new n roles pages mid) where
    same_entry : view mid.mem old (4096 * n) ≡ view k.mem old (4096 * n)
    same_entry = b.space.views old (4096 * n) old_root (omega arith) ∙ ground (arith, apart)

    owned_mid : roles (source_page mid.mem old (4096 * n)) ≡ used
    owned_mid =
        ap (λ e. roles (pte2pa e)) same_entry
        ∙ b.space.keeps _ (λ z. cc (sources.owned n more))
        ∙ sources.owned n more

    clear_mid : is_valid (view mid.mem new (4096 * n)) ≡ false
    clear_mid =
        let outside : ltb (4096 * n) (0 + 4096 * n) ≡ false = ground arith in
        let same = b.space.views new (4096 * n) new_root (omega arith) in
        let empty = clear (4096 * n) (omega arith) in
        ap (λ e. is_valid e) same ∙ ground (arith, outside, empty)

    round : NotCopied P roles mid old new (4096 * n) ⊎ Copied P roles mid old new (4096 * n)
    round =
        copy_page-round old new (4096 * n) (b.space.keeps old (λ z. cc) ∙ old_root)
          (b.space.keeps new (λ z. cc) ∙ new_root) (omega arith) (omega arith)
          (ap (λ e. is_leaf e) same_entry ∙ sources.mapped n more) owned_mid
          (subst (λ e. IsFrame P (pte2pa e)) (sym same_entry) (sources.frames n more)) clear_mid
          pages b.space.inv

    source_byte :
        (o : ℕ)
        → o < 4096
        → mid.mem (source_page mid.mem old (4096 * n) + o) ≡ byte_of k.mem old n o
    source_byte o h =
        let f = sources.frames n more in
        ap (λ e. mid.mem (pte2pa e + o)) same_entry
        ∙ b.space.bytes (source_page k.mem old (4096 * n)) (source_page k.mem old (4096 * n) + o)
            (sources.owned n more) f.aligned (omega arith) (omega arith)

    -- A copied page more.
    Copies-suc :
        (c : Copied P roles mid old new (4096 * n))
        → Copies P role k old new (suc n) c.roles c.pages c.after
    Copies-suc c =
        let here : 4096 * n ≡ 0 + 4096 * n = omega arith in
        let fresh =
          subst
            (λ x.
              Fresh P roles mid new x (flags_of k.mem old n) c.page c.contents c.roles c.pages
                c.after)
            here
            (subst
              (λ e.
                Fresh P roles mid new (4096 * n) (pte_flags e) c.page c.contents c.roles c.pages
                  c.after)
              same_entry c.fresh) in
        Backed-suc new 0 (λ i. flags_of k.mem old i) (λ i offset. byte_of k.mem old i offset) b
          fresh new_root (omega arith) (λ o h. c.same o h ∙ source_byte o h)

  -- A failure after `n` pages.
  undo :
      {roles : Roles} {pages : List ℕ} {mid : Kernel} {r : Run Bool} (n : ℕ)
      → n ≤ n_pages
      → Copies P role k old new n roles pages mid
      → r ≡ (uvmunmap P new 0 n true >> pure false) mid
      → Undone P role k false r
  undo {roles} {pages} {mid} n some_pages b run =
      let flags = λ (i : ℕ) (h : i < n). flags_ok i (omega arith) in
      let u =
        uvmunmap-Unmapping P new true 0 n roles pages mid b.space.inv
          (b.space.keeps new (λ z. cc) ∙ new_root) (omega arith) (omega arith)
          (Backed-Leaves b new_root (omega arith) flags) in
      record {
        after = u.after;
        roles = u.roles;
        pages = _;
        run = run ∙ rw u.run refl;
        unused = Backed-unused b new_root (omega arith) flags u.release;
        space =
            Backed-undo b new_root (omega arith) flags (λ va lo hi. clear va (omega arith))
              u.release;
      }

  copy_loop-CopyResult :
      (m fuel n sz : ℕ) (roles : Roles) (pages : List ℕ) (mid : Kernel)
      → Copies P role k old new n roles pages mid
      → pages_up sz ≡ n_pages
      → n + m ≡ n_pages
      → m < fuel
      → CopyResult P role k old new n_pages (copy_loop P fuel old new (4096 * n) sz mid)
  unfolding copy_loop
  copy_loop-CopyResult m zero n sz roles pages mid b total sum enough = absurd (omega arith)
  copy_loop-CopyResult zero (suc f) n sz roles pages mid b total sum enough =
      let stop : ltb (4096 * n) sz ≡ false = ground arith in
      let all : n ≡ n_pages = omega arith in
      rw stop (
        inr (record {
          after = mid;
          roles = roles;
          pages = pages;
          run = refl;
          copies = subst (λ x. Copies P role k old new x roles pages mid) all b;
        }))
  copy_loop-CopyResult (suc m) (suc f) n sz roles pages mid b total sum enough =
      let go : ltb (4096 * n) sz ≡ true = ground arith in
      let next : u64 (4096 * n + 4096) ≡ 4096 * suc n = omega arith in
      let count : 4096 * n / 4096 ≡ n = omega arith in
      elim (round n (omega arith) b) [
        | inl s ↦ inl (
            undo n (omega arith) (Backed-Space new 0 _ _ b s.space s.unused)
              (rw (go, s.run, count) refl))
        | inr s ↦
            rw (go, s.run, next)
              (copy_loop-CopyResult m f (suc n) sz s.roles s.pages s.after
                (Copies-suc n (omega arith) b s) total (omega arith) (omega arith))
      ]

module _ {P : Platform} where
  -- With two roots, the first `sz` bytes below the one mapped by leaf entries to user pages, and
  -- nothing mapped below the other: `uvmcopy` either returns 0, and below the second root the same
  -- virtual pages have the same flags and the same bytes, in distinct frames that were free; or it
  -- returns -1, every address space and every user page is as before, and no page that was free is
  -- a user page now. Nothing else changes.
  pub uvmcopy-CopyResult :
      (old new sz : ℕ) (role : Roles) (ps : List ℕ) (k : Kernel)
      → Inv P role ps k
      → role old ≡ root
      → role new ≡ root
      → old ≢ new
      → sz ≤ maxva
      → Sources P role k.mem old (pages_up sz)
      → ((va : ℕ) → va < 4096 * pages_up sz → view k.mem new va ≡ 0)
      → CopyResult P role k old new (pages_up sz) (uvmcopy P old new sz k)
  unfolding uvmcopy
  uvmcopy-CopyResult old new sz role ps k inv e e' apart low sources clear =
      copy_loop-CopyResult k old new (pages_up sz) e e' apart (omega arith) sources clear
        (pages_up sz) page_rounds 0 sz role ps k (Backed-none new 0 _ _ inv) refl (omega arith)
        (omega arith)
