-- ===== src/Uploads.antt =====
-- Upload capacity (internal/db/upload_capacity.go): the slots that tasks need to upload, of which the
-- master gives out a limited number.
pub mod Slots
pub mod Grants
pub mod Capacity
