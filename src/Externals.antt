-- ===== src/Externals.antt =====
-- The table of external connections in c-original/mtproto/mtproto-proxy.c: the hash table on the
-- client's side, the array of ids on the servers' side, and the rings.
pub mod Rings
mod RingLaws
pub mod Entries
pub mod ChainLaws
pub mod Shape
pub mod Lookup
mod Untrack
pub mod Delete
pub mod Slots
mod Joins
mod Insert
pub mod Create
pub mod Remove
pub mod Open
mod History
pub mod Tests
use mtproxy.Prelude.{ℕ}
