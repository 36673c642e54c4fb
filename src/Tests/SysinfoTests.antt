-- ===== src/Tests/SysinfoTests.antt =====
-- sysinfotest on a machine with two free pages.
use my_os_proj.Base.{
  ℕ, ◌+◌, ◌-◌, ◌*◌, ◌/◌, ◌^◌, ◌≡◌, refl, ltb, ◌==◌, some, none, [], if◌then◌else◌,
}
use my_os_proj.Kernel.{page_size}
use my_os_proj.User.SysinfoTest.{Calls, Session, ok, minus_one, sinfo, grow_all, countfree, testmem}
use my_os_proj.User.SysinfoTest.Sound.{Observed, testmem-Observed}

-- The state is the number of pages that the program has been granted.
abbrev calls : Calls ℕ
calls = record {
  sbrk = λ n k.
      if n == 0
      then (4096 * k, k)
      else if n == page_size
      then if ltb k 2 then (4096 * k, k + 1) else (minus_one, k)
      else (4096 * k, k - (2 ^ 32 - n) / 4096);
  sysinfo = λ k. (some (record { freemem = 4096 * (2 - k); nproc = 1 }), k);
  sysinfo_outside = λ addr k. (2 ^ 32 - 1, k);
  fork = λ k. none;
  exit = λ status k. k;
  wait = λ k. k;
}

abbrev before : Session ℕ
before = record { system = 0; printed = [] }

testmem_ends : testmem calls 3 before ≡ ok tt before
unfolding testmem countfree grow_all sinfo
testmem_ends = refl

testmem-Observed_example : Observed calls 0
testmem-Observed_example = testmem-Observed calls 3 before before testmem_ends
