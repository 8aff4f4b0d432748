-- ===== src/Kvs.antt =====
-- The component kvs/, on a host: kvs/host.
pub mod Layout
pub mod Store
pub mod Nodes
pub mod Search
pub mod Keys
pub mod Place
pub mod Placing
pub mod Lookup
pub mod Entry
pub mod Integers
pub mod History
pub mod Erase
pub mod Blobs
pub mod BlobPlacing
pub mod BlobSearch
pub mod BlobValues
pub mod BlobWriting
pub mod Strings
pub mod Handles
pub mod Foreach
mod Tests
