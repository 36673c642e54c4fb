-- ===== src/Paging/User.antt =====
-- Changes of user pages: the page tables and the free list do not see them.
use my_os_proj.Base.{ℕ, suc, ◌≡◌, inl, inr, sym, ◌∙◌, ap, none, some, List, ◌∉◌, has, Bool-cases}
use my_os_proj.Memory.{Memory}
use my_os_proj.Memory.Words.{SameOutside}
use my_os_proj.Kernel.{Platform, Kernel}
use my_os_proj.Kalloc.FreeList.{IsFrame, Chain-SameOutside}
use my_os_proj.Pte.{pte2pa, is_valid}
use my_os_proj.Paging.{Roles, used, level_of, Inv, view_from}
use my_os_proj.Paging.Plain.{entry_same, view_from-plain}

module _ {P : Platform} {role : Roles} {ps : List ℕ} {k : Kernel} (inv : Inv P role ps k) (p : ℕ)
    (in_use : role p ≡ used) (frame : IsFrame P p) (g : Memory) (same : SameOutside p k.mem g) where
  open inv use {pool, free_listed, listed_free, frames, links}

  no_table : level_of (role p) ≡ none
  no_table = ap level_of in_use

  pub not_listed : p ∉ ps
  not_listed = elim (Bool-cases (has p ps)) [ inl m ↦ cc (listed_free p m) | inr m ↦ m ]

  pub changed-Inv : Inv P role ps (record k { mem = g })
  changed-Inv = record {
    pool = Chain-SameOutside P k.mem g k.freelist ps p same frame not_listed pool;
    free_listed = free_listed;
    listed_free = listed_free;
    frames = frames;
    links = λ q l i e h valid.
        let eq = entry_same inv p no_table frame g same q (suc l) i e h in
        ap (λ w. role (pte2pa w)) eq ∙ links q l i e h (ap (λ w. is_valid w) (sym eq) ∙ valid);
  }

  pub view_from-changed :
      (l q va : ℕ) → level_of (role q) ≡ some l → view_from g l q va ≡ view_from k.mem l q va
  view_from-changed = view_from-plain inv p no_table frame g same
