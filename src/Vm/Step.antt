-- ===== src/Vm/Step.antt =====
-- One round of `mappages`.
use my_os_proj.Base.{
  ℕ, ◌+◌, ◌*◌, ◌/◌, ◌%◌, ◌^◌, ◌<◌, ◌≤◌, ◌≡◌, ◌≢◌, refl, sym, ◌∙◌, ap, subst, arith, Bool, true,
  false, List, if◌then◌else◌, ◌&&◌, ◌==◌, ==_iff,
}
use my_os_proj.Memory.{Memory, load64}
use my_os_proj.Kernel.{Platform, Kernel, Run, maxva}
use my_os_proj.Pte.{px}
use my_os_proj.Pte.Laws.{px-lt, px_of_page}
use my_os_proj.Walk.Alloc.{Walked}
use my_os_proj.Paging.{Roles, free, used, root, level_of, Inv, slot_from, view, slot}
use my_os_proj.Paging.Slots.{Home, slot_from-Home, slot_injective, view_from-slot_from}
use my_os_proj.Paging.Leaf.{written, written-Inv, written_bytes, view_from-written}

-- A slot depends on the page of the address.
slot_page : (m : Memory) (q va wa : ℕ) → va / 4096 ≡ wa / 4096 → slot m q va ≡ slot m q wa
unfolding slot_from
slot_page m q va wa e = let (e0, e1, e2) = px_of_page va wa e in rw (e0, e1, e2)

Bool_ext : (b c : Bool) → (b ≡ true → c ≡ true) → (c ≡ true → b ≡ true) → b ≡ c
Bool_ext true c f g = sym (f refl)
Bool_ext false true f g = g refl
Bool_ext false false f g = refl

-- A change of address spaces: pages in use keep their roles, user pages their bytes, and the leaf
-- entry of `va` below the root `q` is now `new q va`.
pub record Space (P : Platform) (role : Roles) (k : Kernel) (new : (q va : ℕ) → ℕ) (roles : Roles)
    (pages : List ℕ) (after : Kernel) : Type 0 where
  pub inv : Inv P roles pages after
  pub keeps : (x : ℕ) → role x ≢ free → roles x ≡ role x
  pub bytes :
      (p x : ℕ) → role p ≡ used → p % 4096 ≡ 0 → p ≤ x → x < p + 4096 → after.mem x ≡ k.mem x
  pub views : (q va : ℕ) → role q ≡ root → va < maxva → view after.mem q va ≡ new q va

-- The address spaces with one page mapped.
abbrev pub with_page : (m : Memory) (pt a v : ℕ) → (q va : ℕ) → ℕ
with_page m pt a v q va = if (q == pt) && (va / 4096 == a / 4096) then v else view m q va

-- Writing the leaf entry that a walk has found.
module _ {P : Platform} {role : Roles} {k : Kernel} {pt a : ℕ} {r : Run ℕ}
    (w : Walked P role k 2 pt a r) (is_root : role pt ≡ root) (low : a < maxva) (v : ℕ)
    (fits : v < 2 ^ 64) (there : w.pte ≡ slot w.after.mem pt a) (ne : w.pte ≢ 0) where
  open w use {pte, after, roles, pages, growth}

  stays_root : (q : ℕ) → role q ≡ root → roles q ≡ root
  stays_root q e = growth.keeps q (λ f. cc) ∙ e

  home : Home growth.inv a (slot after.mem pt a)
  home =
      slot_from-Home growth.inv 2 pt a (ap level_of (stays_root pt is_root)) (λ z. ne (there ∙ z))

  place : pte ≡ home.page + 8 * px 0 a
  place = there ∙ home.place

  pub found_entry : load64 after.mem pte ≡ view k.mem pt a
  found_entry =
      ap (load64 after.mem) there
      ∙ sym (view_from-slot_from after.mem 2 pt a (λ z. ne (there ∙ z)))
      ∙ growth.views 2 pt a (ap level_of is_root)

  same_slot :
      (q va : ℕ)
      → role q ≡ root
      → va < maxva
      → (slot after.mem q va == pte) ≡ ((q == pt) && (va / 4096 == a / 4096))
  same_slot q va e low' = Bool_ext _ _ forward back
    where
      forward : (slot after.mem q va == pte) ≡ true → ((q == pt) && (va / 4096 == a / 4096)) ≡ true
      forward h =
          let same = sym there ∙ sym ((==_iff (slot after.mem q va) pte).0 h) in
          let both =
            slot_injective growth.inv pt q a va (stays_root pt is_root) (stays_root q e) low low'
              (λ z. ne (there ∙ z)) same in
          ground (arith, both)

      back : ((q == pt) && (va / 4096 == a / 4096)) ≡ true → (slot after.mem q va == pte) ≡ true
      back h =
          let table_eq : q ≡ pt = ground arith in
          let page : va / 4096 ≡ a / 4096 = ground arith in
          (==_iff (slot after.mem q va) pte).1
            (ap (λ x. slot after.mem x va) table_eq ∙ slot_page after.mem pt va a page ∙ sym there)

  pub written-Space : Space P role k (with_page k.mem pt a v) roles pages (written pte v after)
  written-Space =
      subst (λ x. Space P role k (with_page k.mem pt a v) roles pages (written x v after))
        (sym place)
        (record {
          inv = written-Inv growth.inv home.page (px 0 a) v home.level (px-lt 0 a);
          keeps = growth.keeps;
          bytes = λ p x e al lo hi.
              written_bytes growth.inv home.page (px 0 a) v home.level (px-lt 0 a) p x
                (growth.keeps p (λ f. cc) ∙ e) al lo hi
              ∙ growth.bytes p x e al lo hi;
          views = λ q va e low'.
              view_from-written growth.inv home.page (px 0 a) v home.level (px-lt 0 a) 2 q va
                (ap level_of (stays_root q e)) fits
              ∙ ap (λ x. if slot after.mem q va == x then v else view after.mem q va) (sym place)
              ∙ ap (λ b. if b then v else view after.mem q va) (same_slot q va e low')
              ∙ ap (λ x. if (q == pt) && (va / 4096 == a / 4096) then v else x)
                  (growth.views 2 q va (ap level_of e));
        })
