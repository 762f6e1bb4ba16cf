-- ===== src/Proc.antt =====
-- Processes, their descriptors, and the tables that they share: kernel/src/proc.
pub mod State
pub mod Process
pub mod Tables
pub mod Fd
pub mod Tally
pub mod Holders
pub mod Owners
pub mod Placed
pub mod Balance
pub mod Dest
pub mod Dup
pub mod Opening
pub mod Family
pub mod Piping
pub mod Life
pub mod Leaving
pub mod Starting
pub mod History
pub mod Exit
pub mod FileIo
pub mod Seek
pub mod FileWrite
pub mod PipeIo
pub mod PipeQueue
mod Tests
