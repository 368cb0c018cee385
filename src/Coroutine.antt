-- ===== src/Coroutine.antt =====
-- The coroutine scheduler (servant/servant/CoroutineScheduler.h and
-- servant/libservant/CoroutineScheduler.cpp).
pub mod Links
pub mod Chains
pub mod Rings
pub mod Lists
pub mod Moves
pub mod Scheduler
pub mod Stacks
pub mod Counting
pub mod Invariant
pub mod Waking
pub mod Growing
pub mod Creating
pub mod Created
pub mod Turns
pub mod Calls
pub mod Runs
pub mod Starting
pub mod Initial
pub mod Rounds
pub mod Faults
pub mod Client
pub mod Wakeups
pub mod Run
mod Tests
mod Examples
