-- ===== src/Copy/Roundtrip.antt =====
-- `copyout` followed by `copyin`.
use my_os_proj.Base.{
  ℕ, ◌+◌, ◌%◌, ◌<◌, ◌≡◌, inl, inr, sym, ◌∙◌, ap, subst, arith, true, List, if◌then◌else◌, leb,
}
use my_os_proj.Kernel.{maxva, Platform, Kernel, ok}
use my_os_proj.Walk.Lookup.{translate, user_page}
use my_os_proj.Paging.{Roles, root, Inv}
use my_os_proj.Copy.{copyout, copyin}
use my_os_proj.Copy.Span.{UserSpace, UserSpace-translate}
use my_os_proj.Copy.In.{copyin-CopiedIn}
use my_os_proj.Copy.InStep.{CopiedIn, KernelBuffer}
use my_os_proj.Copy.Out.{copyout-CopiedOut}
use my_os_proj.Copy.OutStep.{CopiedOut, SourceApart}

module _ {P : Platform} {role : Roles} {ps : List ℕ} {k : Kernel} (pt b dst src va len : ℕ)
    (space : UserSpace P role k.mem pt) (buffer : KernelBuffer P role k.mem pt b dst len)
    (e : role pt ≡ root) (o : CopiedOut P role ps k pt va src len (copyout P pt va src len k))
    (done : o.done ≡ true) where
  same_translation : (wa : ℕ) → translate o.after.mem pt wa ≡ translate k.mem pt wa
  same_translation wa = ap (λ v. if leb maxva wa then 0 else user_page v) (o.views pt wa e)

  all_out : o.n ≡ len
  all_out = elim o.ending [ inl (_, n) ↦ n | inr (f, _, _) ↦ cc ]

  buffer_after : KernelBuffer P role o.after.mem pt b dst len
  buffer_after = record {
    in_use = buffer.in_use;
    frame = buffer.frame;
    apart = λ wa h z.
        buffer.apart wa (λ y. h (same_translation wa ∙ y)) (sym (same_translation wa) ∙ z);
    lower = buffer.lower;
    upper = buffer.upper;
  }

  module _ (r : CopiedIn P role ps o.after pt dst va len (copyin P pt dst va len o.after)) where
    all_in : (r.done ≡ true) × (r.n ≡ len)
    all_in = elim r.ending [
      | inl all ↦ all
      | inr (_, part, missing) ↦ absurd (
          o.reached r.n (omega (arith, all_out, part))
            (sym (same_translation (va + r.n)) ∙ missing))
    ]

    back_again : (i : ℕ) → i < len → r.after.mem (dst + i) ≡ k.mem (src + i)
    back_again i h =
        r.copied i (omega (arith, all_in.1, h))
        ∙ ap (λ t. o.after.mem (t + (va + i) % 4096)) (same_translation (va + i))
        ∙ o.copied i (omega (arith, all_out, h))

-- Bytes that `copyout` has copied to a user address, with result 0, come back with a `copyin` from
-- that address: it succeeds, and the buffer holds the bytes of the source.
pub copyin-copyout :
    (P : Platform) (role : Roles) (ps : List ℕ) (k k1 : Kernel) (pt b dst src va len : ℕ)
    → Inv P role ps k
    → role pt ≡ root
    → UserSpace P role k.mem pt
    → SourceApart k.mem pt src len
    → KernelBuffer P role k.mem pt b dst len
    → copyout P pt va src len k ≡ ok true k1
    → (k2 : Kernel) × ((copyin P pt dst va len k1 ≡ ok true k2)
        × ((i : ℕ) → i < len → k2.mem (dst + i) ≡ k.mem (src + i)))
copyin-copyout P role ps k k1 pt b dst src va len inv e space apart buffer run =
    let o = copyout-CopiedOut pt va src len role ps k inv e space apart in
    let same : ok true k1 ≡ ok o.done o.after = sym run ∙ o.run in
    let done : o.done ≡ true = cc in
    let after : o.after ≡ k1 = cc in
    let r =
      copyin-CopiedIn pt b dst va len role ps o.after o.inv e
        (UserSpace-translate space o.after.mem
          (same_translation pt b dst src va len space buffer e o done))
        (buffer_after pt b dst src va len space buffer e o done) in
    (
      r.after,
      (
        subst (λ x. copyin P pt dst va len x ≡ ok true r.after) after
            (r.run ∙ ap (λ x. ok x r.after) (all_in pt b dst src va len space buffer e o done r).0),
        back_again pt b dst src va len space buffer e o done r,
      ),
    )
