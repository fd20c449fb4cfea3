-- ===== src/Disk.antt =====
-- The part of Go's `os` and `io` that the controllers call, over a file system as a value. Paths are
-- absolute and cleaned, and no directory on them is a symbolic link; other processes do not write.
-- Each call takes one entry of `faults`: `none` lets it go on, `some n` makes it fail, a copy after
-- n bytes. After the last entry every call goes on.
pub mod State
pub mod Calls
pub mod Schedule
pub mod Frame
pub mod Effects
pub mod Content
pub mod Reads
pub mod Links
pub mod Tree
pub mod Quiet
unfoldable pub use State.*
unfoldable pub use Calls.*
