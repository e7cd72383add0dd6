-- ===== src/Files.antt =====
-- core/filesystem: `FileSystem`, `Catalog` and `Record`, over the host's directories and the shared
-- lock table. The children `Host`, `Locks`, `Handles`, `Items` and `Attributes` hold the operations.
-- An operation that throws gives an error beside the state, with what it had changed before.
pub mod Host
pub mod State
pub mod Locks
pub mod Handles
pub mod Items
pub mod Attributes
pub mod Exclusion
pub mod Subvalues
pub mod RecordNames
pub mod Listing
pub mod Cursor
pub mod Deletion
pub mod Names
pub mod Moves
pub mod ReadBack
