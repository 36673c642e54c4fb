-- ===== src/Vm/Halts.antt =====
-- The loops of `mappages` and `uvmunmap` end: an address that reaches `maxva` makes `walk` panic.
use my_os_proj.Base.{
  ℕ, zero, suc, ◌+◌, ◌*◌, ◌%◌, ◌≡◌, ◌≤◌, ◌<◌, inl, inr, refl, arith, Bool, true, false, not, ◌==◌,
  ltb, Bool-cases,
}
use my_os_proj.Memory.{load64}
use my_os_proj.Kernel.{Platform, Kernel, panic, walk_panic, Cmd, ◌>>◌, maxva, u64}
use my_os_proj.Pte.{is_valid, pte2pa, pte_flags, pte_v}
use my_os_proj.Walk.{walk}
use my_os_proj.Walk.Lookup.{walk_beyond}
use my_os_proj.Walk.Halts.{
  Halts, Halting, and_then-Halts, if-Halts, Halting-bind, Halting-then, Halting-if, Halting-pure,
  Halting-fail, Halting-update, Halting-kfree, Halting-walk,
}
use my_os_proj.Vm.{map_page, map_loop, mappages, unmap_page, unmap_loop, uvmunmap}

-- Beyond `maxva` the rest of the loop is not reached.
map_page-Halts :
    (pt a last pa perm : ℕ) (next : Cmd Bool) (k : Kernel)
    → (a < maxva → Halting next)
    → Halts (map_page pt a last pa perm next k)
unfolding map_page
map_page-Halts pt a last pa perm next k rest = elim (Bool-cases (ltb a maxva)) [
  | inr high ↦ rw (walk_beyond pt a true k (ground arith), Halts) tt
  | inl low ↦ and_then-Halts (walk pt a true k) _ ((Halting-walk pt a true).run k) (λ pte k'.
      (Halting-if (pte == 0) Halting-pure (record {
        run = λ k2.
            if-Halts (is_valid (load64 k2.mem pte)) _ _ tt
              ((Halting-if (a == last) Halting-pure (rest (ground arith))).run _);
      })).run
        k')
]

map_loop-Halts :
    (f pt a last pa perm : ℕ) (k : Kernel)
    → maxva ≤ a + 4096 * f
    → Halts (map_loop (suc f) pt a last pa perm k)
unfolding map_loop
map_loop-Halts zero pt a last pa perm k enough =
    map_page-Halts pt a last pa perm _ k (λ low. absurd (omega arith))
map_loop-Halts (suc f) pt a last pa perm k enough = map_page-Halts pt a last pa perm _ k (λ low.
    record {
      run = λ k'. map_loop-Halts f pt (u64 (a + 4096)) last (u64 (pa + 4096)) perm k' (omega arith);
    })

unmap_page-Halting :
    (P : Platform) (pt a : ℕ) (do_free : Bool) → Halting (unmap_page P pt a do_free)
unfolding unmap_page
unmap_page-Halting P pt a do_free = Halting-bind (Halting-walk pt a false) (λ pte.
    Halting-if (pte == 0) Halting-fail (record {
      run = λ k. if-Halts (not (is_valid (load64 k.mem pte))) _ _ tt (
          if-Halts (pte_flags (load64 k.mem pte) == pte_v) _ _ tt (
            (Halting-then
                (Halting-if do_free (Halting-kfree P (pte2pa (load64 k.mem pte))) Halting-pure)
                (Halting-update _)).run
              k));
    }))

unmap_beyond :
    (P : Platform) (pt a : ℕ) (do_free : Bool) (next : Cmd (Unit {0})) (k : Kernel)
    → maxva ≤ a
    → Halts ((unmap_page P pt a do_free >> next) k)
unfolding unmap_page
unmap_beyond P pt a do_free next k high = rw (walk_beyond pt a false k high, Halts) tt

unmap_loop-Halts :
    (P : Platform) (f pt a end_va : ℕ) (do_free : Bool) (k : Kernel)
    → maxva ≤ a + 4096 * f
    → Halts (unmap_loop P (suc f) pt a end_va do_free k)
unfolding unmap_loop
unmap_loop-Halts P zero pt a end_va do_free k enough =
    if-Halts (ltb a end_va) _ _ (unmap_beyond P pt a do_free _ k (omega arith)) tt
unmap_loop-Halts P (suc f) pt a end_va do_free k enough = elim (Bool-cases (ltb a maxva)) [
  | inr high ↦ if-Halts (ltb a end_va) _ _ (unmap_beyond P pt a do_free _ k (ground arith)) tt
  | inl low ↦
      if-Halts (ltb a end_va) _ _
        (and_then-Halts (unmap_page P pt a do_free k) _ ((unmap_page-Halting P pt a do_free).run k)
          (λ u k'. unmap_loop-Halts P f pt (u64 (a + 4096)) end_va do_free k' (ground arith)))
        tt
]

pub Halting-mappages :
    (P : Platform) (pt va size pa perm : ℕ) → Halting (mappages P pt va size pa perm)
unfolding mappages
Halting-mappages P pt va size pa perm = record {
  run = λ k. if-Halts (size == 0) _ _ tt (map_loop-Halts 0x400_0001 pt _ _ pa perm k (omega arith));
}

pub Halting-uvmunmap :
    (P : Platform) (pt va n : ℕ) (do_free : Bool) → Halting (uvmunmap P pt va n do_free)
unfolding uvmunmap
Halting-uvmunmap P pt va n do_free =
    Halting-if (not (va % 4096 == 0)) Halting-fail
      (record { run = λ k. unmap_loop-Halts P 0x400_0001 pt va _ do_free k (omega arith) })

map_loop_beyond :
    (f pt a last pa perm : ℕ) (k : Kernel)
    → maxva ≤ a
    → map_loop (suc f) pt a last pa perm k ≡ panic walk_panic
unfolding map_loop map_page
map_loop_beyond f pt a last pa perm k high = rw (walk_beyond pt a true k high) refl

-- A page at `maxva` or beyond is not mapped.
pub mappages_beyond :
    (P : Platform) (pt va pa perm : ℕ) (k : Kernel)
    → maxva ≤ va
    → mappages P pt va 4096 pa perm k ≡ panic walk_panic
unfolding mappages
mappages_beyond P pt va pa perm k high =
    map_loop_beyond 0x400_0001 pt (P.pgrounddown va) _ pa perm k
      (omega (arith, P.pgrounddown_lem va))
