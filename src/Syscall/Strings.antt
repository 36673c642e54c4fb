-- ===== src/Syscall/Strings.antt =====
-- String arguments of system calls, `fetchstr` and `argstr` of lab2/syscall.c, and `sys_uptime` and
-- `sys_wait` of lab2/sysproc.c. The string library's `strlen` stops at the first 0.
use my_os_proj.Base.{ℕ, zero, suc, ◌+◌, ◌%◌, ◌^◌, not, ◌==◌, Option, none, some, if◌then◌else◌}
use my_os_proj.Memory.{Memory}
use my_os_proj.Kernel.{sign_extend, Platform}
use my_os_proj.Copy.{copyinstr}
use my_os_proj.Proc.Traced.Wait.{wait_loop}
use my_os_proj.Proc.System.{Files, System, Out, ok, Op, pure, ◌>>=◌, lift, get_proc}
use my_os_proj.Syscall.{minus_one, argaddr}

-- On fuel; a string that `copyinstr` leaves in `max` bytes ends in them.
pub strlen : (rounds a : ℕ) → Memory → Option ℕ
strlen zero a m = none
strlen (suc rounds) a m =
    let rest = strlen rounds (a + 1) m in
    if m a == 0 then some 0 else elim rest [ none ↦ none | some n ↦ some (suc n) ]

module _ {F : Type 0} (P : Platform) where
  -- `none` is -1.
  pub fetchstr : (me addr buf max : ℕ) → Op F (Option ℕ)
  fetchstr me addr buf max = do
    p ← get_proc me
    copied ← lift (copyinstr P p.pagetable buf addr max)
    if not copied then pure none else λ s. elim (strlen max buf s.kernel.mem) [
      | none ↦ Out.out_of_fuel
      | some n ↦ ok (some n) s
    ]

  pub argstr : (me n buf max : ℕ) → Op F (Option ℕ)
  argstr me n buf max = do addr ← argaddr me n; fetchstr me addr buf max

-- `ticks` is a uint.
pub sys_uptime : (ticks : ℕ) → ℕ
sys_uptime ticks = ticks % 2 ^ 32

module _ {F : Type 0} (P : Platform) (fs : Files F) (others : System F → System F) where
  -- `others` is what happens while the process sleeps.
  pub sys_wait : (rounds me : ℕ) → Op F ℕ
  sys_wait rounds me = do
    addr ← argaddr me 0
    pid ← wait_loop P fs others rounds me addr
    elim pid [ none ↦ pure minus_one | some i ↦ pure (sign_extend i) ]
