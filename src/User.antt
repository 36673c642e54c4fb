-- ===== src/User.antt =====
-- The user programs of lab1, and sysinfotest and trace of lab2. What they ask of the system (pipes,
-- `fork`, `exec`, directories, other system calls) enters as arguments.
pub mod Primes
pub mod Xargs
pub mod Find
pub mod SysinfoTest
pub mod Pingpong
pub mod Sleep
pub mod TraceCommand
