-- ===== src/Tests.antt =====
-- Runs of the model at concrete inputs, and each theorem at one of them.
pub mod Machine
pub mod Kalloc
pub mod Paging
pub mod Spaces
pub mod Copies
pub mod Procs
pub mod Sleep
pub mod Pids
pub mod Pingpongs
pub mod Accessed
pub mod Syscalls
pub mod SysinfoTests
pub mod Primes
pub mod Programs
