-- ===== src/Copy/Span.antt =====
-- User memory as a process sees it: where the bytes of its address space lie.
use my_os_proj.Copy.{chunk}
use my_os_proj.Base.{
  ltb, ℕ, ◌+◌, ◌-◌, ◌*◌, ◌/◌, ◌%◌, ◌<◌, ◌≤◌, ◌≡◌, ◌≢◌, ◌⊎◌, arith, if◌then◌else◌, leb, subst, sym,
  ◌∙◌,
}
use my_os_proj.Memory.{Memory}
use my_os_proj.Kernel.{Platform, maxva}
use my_os_proj.Kalloc.FreeList.{IsFrame}
use my_os_proj.Walk.Lookup.{translate, user_page}
use my_os_proj.Paging.{Roles, used, view, view_from}
use my_os_proj.Pte.Laws.{px_of_page}
use mathlib.Core.Path.{ap₂}

-- The physical address of the byte at a virtual address that is translated.
abbrev pub user_addr : (m : Memory) (pt va : ℕ) → ℕ
user_addr m pt va = translate m pt va + va % 4096

-- The pages that user code can reach below `pt` are pages in use, and no two of its virtual pages
-- share one.
pub record UserSpace (P : Platform) (role : Roles) (m : Memory) (pt : ℕ) : Type 0 where
  pub owned : (va : ℕ) → translate m pt va ≢ 0 → role (translate m pt va) ≡ used
  pub frames : (va : ℕ) → translate m pt va ≢ 0 → IsFrame P (translate m pt va)
  pub single :
      (va wa : ℕ)
      → translate m pt va ≢ 0
      → translate m pt va ≡ translate m pt wa
      → va / 4096 ≡ wa / 4096

module _ {P : Platform} {role : Roles} {m : Memory} {pt : ℕ} (space : UserSpace P role m pt) where
  -- The same holds in a memory that gives the same translations.
  pub UserSpace-translate :
      (g : Memory) → ((va : ℕ) → translate g pt va ≡ translate m pt va) → UserSpace P role g pt
  UserSpace-translate g t = record {
    owned = λ va h. subst (λ p. role p ≡ used) (sym (t va)) (space.owned va (λ z. h (t va ∙ z)));
    frames = λ va h. subst (IsFrame P) (sym (t va)) (space.frames va (λ z. h (t va ∙ z)));
    single = λ va wa h same. space.single va wa (λ z. h (t va ∙ z)) (sym (t va) ∙ same ∙ t wa);
  }

  pub user_addr_injective :
      (va wa : ℕ)
      → translate m pt va ≢ 0
      → translate m pt wa ≢ 0
      → user_addr m pt va ≡ user_addr m pt wa
      → va ≡ wa
  user_addr_injective va wa h h' same =
      let f = (space.frames va h).aligned in
      let f' = (space.frames wa h').aligned in
      let page : translate m pt va ≡ translate m pt wa = omega arith in
      omega (arith, space.single va wa h page)

-- So is the leaf entry.
pub view_page : (m : Memory) (q va wa : ℕ) → va / 4096 ≡ wa / 4096 → view m q va ≡ view m q wa
unfolding view_from
view_page m q va wa e = let (e0, e1, e2) = px_of_page va wa e in rw (e0, e1, e2)

-- The translation is the same for all addresses of a page.
pub translate_page :
    (m : Memory) (pt va wa : ℕ) → va / 4096 ≡ wa / 4096 → translate m pt va ≡ translate m pt wa
translate_page m pt va wa e =
    let bound : leb maxva va ≡ leb maxva wa = ground arith in
    ap₂ (λ b v. if b then 0 else user_page v) bound (view_page m pt va wa e)

module _ (P : Platform) where
  -- The chunk of a round, without the rounding macro.
  chunk_eq :
      (va len : ℕ) → chunk P va len ≡ (if ltb len (4096 - va % 4096) then len else 4096 - va % 4096)
  chunk_eq va len =
      let off : 4096 - (va - P.pgrounddown va) ≡ 4096 - va % 4096 =
        omega (arith, P.pgrounddown_lem va) in
      rw off

  pub chunk_bounds :
      (va len : ℕ)
      → 0 < len
      → (0 < chunk P va len)
        × (chunk P va len ≤ len)
        × (va % 4096 + chunk P va len ≤ 4096)
        × ((chunk P va len ≡ len) ⊎ (va / 4096 * 4096 + 4096 ≡ va + chunk P va len))
  chunk_bounds va len pos = ground (arith, chunk_eq va len)
