-- ===== src/Mime.antt =====
-- crates/peergos-fs/src/mimetype.rs: detection of the type of a file.
pub mod Magic
pub mod Detect
pub mod Utf8
pub mod Chain
pub mod Prefix
mod Runs
