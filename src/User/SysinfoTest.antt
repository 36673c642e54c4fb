-- ===== src/User/SysinfoTest.antt =====
-- lab2/sysinfotest.c: the program that tests the system call `sysinfo`. The system calls that it
-- makes are the record `Calls` over a state of the system.
pub mod Runs
pub mod Sound
use my_os_proj.Base.{
  ℕ, zero, suc, ◌+◌, ◌-◌, ◌%◌, ◌^◌, Bool, true, false, not, ◌==◌, Option, none, some, List, [], ◌∷◌,
  ◌++◌, if◌then◌else◌,
}
use my_os_proj.Kernel.{page_size, u64, sign_extend}

-- `struct sysinfo`
pub record Info : Type 0 where
  pub freemem : ℕ
  pub nproc : ℕ

-- The int that `sbrk` takes is a pattern of 32 bits, and the address that it returns a word; so is
-- the int that `sysinfo` returns for an address outside the program. For an address inside,
-- `sysinfo` fills in the structure, or returns a negative result. `fork` makes a child or fails;
-- `exit` is called by the process that runs, and `wait` by the parent of one that has ended.
pub record Calls (S : Type 0) : Type 0 where
  pub sbrk : (n : ℕ) → S → ℕ × S
  pub sysinfo : S → Option Info × S
  pub sysinfo_outside : (addr : ℕ) → S → ℕ × S
  pub fork : S → Option S
  pub exit : (status : ℕ) → S → S
  pub wait : S → S

-- What `printf` prints; a `%d` prints the low 32 bits of its argument.
pub data Message : Type 0 where
  started passed sysinfo_failed sbrk_failed call_failed bad_argument fork_failed : Message
  no_free_mem : (freemem : ℕ) → Message
  free_mem : (first second : ℕ) → Message
  nproc_is : (nproc expected : ℕ) → Message

pub record Session (S : Type 0) : Type 0 where
  pub system : S
  pub printed : List Message

pub data Out (S A : Type 0) : Type 0 where
  ok : A → Session S → Out S A
  exited : (status : ℕ) → Session S → Out S A
  out_of_fuel : Out S A

abbrev pub Test : Type 0 → Type 0 → Type 0
Test S A = Session S → Out S A

abbrev pub and_then : {S A B : Type 0} → Out S A → (A → Test S B) → Out S B
and_then (ok a s) f = f a s
and_then (exited status s) f = exited status s
and_then out_of_fuel f = out_of_fuel

infixl 5 ◌>>=◌ ◌>>◌
abbrev ◌>>=◌ : {S A B : Type 0} → Test S A → (A → Test S B) → Test S B
◌>>=◌ m f s = and_then (m s) f

abbrev ◌>>◌ : {S B : Type 0} → Test S (Unit {0}) → Test S B → Test S B
◌>>◌ m n s = and_then (m s) (λ _. n)

abbrev pure : {S A : Type 0} → A → Test S A
pure a s = ok a s

abbrev printf : {S : Type 0} → Message → Test S (Unit {0})
printf m s = ok tt (record s { printed = s.printed ++ m ∷ [] })

-- A system call.
abbrev call : {S A : Type 0} → (S → A × S) → Test S A
call f s = let (a, t) = f s.system in ok a (record s { system = t })

-- 0xffffffffffffffff
abbrev pub minus_one : ℕ
minus_one = 2 ^ 64 - 1

-- An address that no process has.
abbrev pub bad_address : ℕ
bad_address = 0xeaeb_0b5b_0000_2f5e

-- `-((uint64)sbrk(0) - sz0)`, as the int that `sbrk` takes.
abbrev pub give_back : (sz sz0 : ℕ) → ℕ
give_back sz sz0 = u64 (2 ^ 64 - u64 (sz + 2 ^ 64 - sz0)) % 2 ^ 32

module _ {S : Type 0} (c : Calls S) where
  abbrev leave : {A : Type 0} → (status : ℕ) → Test S A
  leave status s = exited status (record s { system = c.exit status s.system })

  abbrev fail : {A : Type 0} → Message → Test S A
  fail m = do printf m; leave 1

  unfoldable pub sinfo : Test S Info
  sinfo = do
    answer ← call c.sysinfo
    elim answer [ none ↦ fail Message.sysinfo_failed | some info ↦ pure info ]

  -- The loop of `countfree`; `n` is an int.
  unfoldable pub grow_all : (fuel n : ℕ) → S → Option (ℕ × S)
  grow_all zero n s = none
  grow_all (suc fuel) n s =
      let (addr, t) = c.sbrk page_size s in
      let rest = grow_all fuel ((n + page_size) % 2 ^ 32) t in
      if addr == minus_one then some (n, t) else rest

  abbrev grown : Option (ℕ × S) → Test S ℕ
  grown none s = out_of_fuel
  grown (some (n, t)) s = ok n (record s { system = t })

  unfoldable pub countfree : (fuel : ℕ) → Test S ℕ
  countfree fuel = do
    sz0 ← call (c.sbrk 0)
    n ← λ s. grown (grow_all fuel 0 s.system) s
    info ← sinfo
    if not (info.freemem == 0)
        then fail (Message.no_free_mem (info.freemem % 2 ^ 32))
        else do sz ← call (c.sbrk 0); _ ← call (c.sbrk (give_back sz sz0)); pure n

  -- `sinfo(&info)`, and the comparison of `info.freemem`. The first message prints the two numbers
  -- in one order, and the second in the other.
  abbrev expect_free : (n : ℕ) (m : ℕ → Message) → Test S (Unit {0})
  expect_free n m = do info ← sinfo; if info.freemem == n then pure tt else fail (m info.freemem)

  -- `sbrk(n)`, which must not fail.
  abbrev must_sbrk : (n : ℕ) → Test S (Unit {0})
  must_sbrk n = do
    addr ← call (c.sbrk n)
    if addr == minus_one then fail Message.sbrk_failed else pure tt

  unfoldable pub testmem : (fuel : ℕ) → Test S (Unit {0})
  testmem fuel = do
    count ← countfree fuel
    let n = sign_extend count
    let less = u64 (n + 2 ^ 64 - page_size)
    expect_free n (λ f. Message.free_mem (f % 2 ^ 32) (n % 2 ^ 32))
    must_sbrk page_size
    expect_free less (λ f. Message.free_mem (less % 2 ^ 32) (f % 2 ^ 32))
    must_sbrk (2 ^ 32 - page_size)
    expect_free n (λ f. Message.free_mem (n % 2 ^ 32) (f % 2 ^ 32))

  unfoldable pub testcall : Test S (Unit {0})
  testcall = do
    answer ← call c.sysinfo
    elim answer [
      | none ↦ fail Message.call_failed
      | some info ↦ do
        result ← call (c.sysinfo_outside bad_address)
        if sign_extend result == minus_one then pure tt else fail Message.bad_argument
    ]

  -- `sinfo(&info)`, and the comparison of `info.nproc`.
  abbrev expect_procs : (n : ℕ) → Test S (Unit {0})
  expect_procs n = do
    info ← sinfo
    if info.nproc == n then pure tt else fail (Message.nproc_is (info.nproc % 2 ^ 32) (n % 2 ^ 32))

  -- What the child does: it never returns.
  unfoldable pub run_child : (nproc : ℕ) → Test S (Unit {0})
  run_child nproc = do expect_procs (u64 (nproc + 1)); leave 0

  -- What the parent does when the child has ended; its status is not looked at.
  unfoldable pub after_child : (nproc : ℕ) → Out S (Unit {0}) → Out S (Unit {0})
  after_child nproc (ok _ s) = expect_procs nproc (record s { system = c.wait s.system })
  after_child nproc (exited status s) = expect_procs nproc (record s { system = c.wait s.system })
  after_child nproc out_of_fuel = out_of_fuel

  unfoldable pub testproc : Test S (Unit {0})
  testproc = do
    info ← sinfo
    λ s. elim (c.fork s.system) [
      | none ↦ fail Message.fork_failed s
      | some t ↦ after_child info.nproc (run_child info.nproc (record s { system = t }))
    ]

  unfoldable pub main : (fuel : ℕ) → Test S (Unit {0})
  main fuel = do
    printf Message.started
    testcall
    testmem fuel
    testproc
    printf Message.passed
    leave 0
