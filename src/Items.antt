-- ===== src/Items.antt =====
-- The parameters of an item, as the Zaurus sends them, into the struct of the item
-- (src/zdtm_proto.c).
pub mod Copy
pub mod Todo
pub mod KeepsEnv
pub mod Length
pub mod Columns
pub mod Calendar
pub mod AddressFields
pub mod Address
