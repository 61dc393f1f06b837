-- ===== src/Fleet.antt =====
-- tools/fleet: the machines that read pages, and the queue that they share.
pub mod Rows
pub mod Passes
pub mod Lease
pub mod Answers
pub mod Documents
pub mod Seeds
pub mod Machine
pub mod Stopping
pub mod Blob
pub mod LeaseLoop
