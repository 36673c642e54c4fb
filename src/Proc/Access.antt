-- ===== src/Proc/Access.antt =====
-- `either_copyout`, `either_copyin` and `pgaccess` of lab3/proc.c.
pub mod Round
pub mod Marks
pub mod Reported
use Prim.Native.Nat.{bit_or}
use my_os_proj.Base.{
  ℕ, zero, suc, ◌+◌, ◌-◌, ◌*◌, ◌%◌, ◌^◌, Bool, true, false, not, ◌&&◌, ◌||◌, leb, ◌==◌,
  if◌then◌else◌,
}
use my_os_proj.Memory.{Memory, load64, store64, memmove}
use my_os_proj.Kernel
use my_os_proj.Kernel.{page_size, u64, sign_extend, Platform, null_pointer, Kernel, Run, Cmd}
use my_os_proj.Pte.{is_accessed}
use my_os_proj.Walk.{walk}
use my_os_proj.Copy.{copyout, copyin}
use my_os_proj.Proc.System.{Op, pure, ◌>>=◌, ◌>>◌, lift, get_proc}

-- `1 << i` for an int `i`, as a uint64; from i = 32 on C leaves it open, and RISC-V shifts by the
-- remainder.
abbrev pub int_bit : ℕ → ℕ
int_bit i = sign_extend (2 ^ (i % 32))

-- `e ^ PTE_A`
abbrev pub toggle_accessed : ℕ → ℕ
toggle_accessed e = if is_accessed e then e - 2 ^ 6 else e + 2 ^ 6

-- `mask |= 1 << i; *pte ^= PTE_A;`
pub record_access : (i pte mask : ℕ) → Memory → Memory
record_access i pte mask m =
    let m' = store64 m mask (bit_or (load64 m mask) (int_bit i)) in
    store64 m' pte (toggle_accessed (load64 m' pte))

-- The loop of `pgaccess`, from page `i` on; `mask` is the variable's address.
pub access_loop : (rounds i pagetable va mask : ℕ) → Cmd (Unit {0})
access_loop zero i pagetable va mask k = Run.ok tt k
access_loop (suc rounds) i pagetable va mask k =
    Kernel.and_then (walk pagetable (u64 (va + page_size * i)) false k) (λ pte k'.
      let e = load64 k'.mem pte in
      let next =
        (if not (e == 0) && is_accessed e
          then record k' { mem = record_access i pte mask k'.mem }
          else k') in
      let rest = access_loop rounds (i + 1) pagetable va mask next in
      if pte == 0 then Run.panic null_pointer else rest)

module _ {F : Type 0} (P : Platform) where
  pub either_copyout : (me : ℕ) (user_dst : Bool) (dst src len : ℕ) → Op F Bool
  either_copyout me user_dst dst src len = do
    p ← get_proc me
    if user_dst
        then lift (copyout P p.pagetable dst src len)
        else (do lift (Kernel.update (λ m. memmove m dst src len)); pure true)

  pub either_copyin : (me dst : ℕ) (user_src : Bool) (src len : ℕ) → Op F Bool
  either_copyin me dst user_src src len = do
    p ← get_proc me
    if user_src
        then lift (copyin P p.pagetable dst src len)
        else (do lift (Kernel.update (λ m. memmove m dst src len)); pure true)

  -- `num` is an int; the variable `mask` lies on the stack at `mask`, and is not initialised. The
  -- result of `copyout` is not tested. 0 is `true`, and -1 is `false`.
  unfoldable pub pgaccess : (me va num ans mask : ℕ) → Op F Bool
  pgaccess me va num ans mask = if num == 0 || leb (2 ^ 31) num then pure false else do
    p ← get_proc me
    lift (access_loop num 0 p.pagetable va mask)
    _ ← lift (copyout P p.pagetable ans mask 8)
    pure true
