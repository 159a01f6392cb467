-- ===== src/Hashtable.antt =====
-- The hashtables of hashtable/include and what they share.
pub mod Outcome
pub mod Slots
pub mod Append
pub mod Contents
pub mod Vacant
pub mod Probing
pub mod Chained
pub mod Cuckoo
