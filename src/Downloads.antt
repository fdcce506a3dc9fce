-- ===== src/Downloads.antt =====
-- ai_lab/downloads/: models on their way to disk. Contents of files are lists of bytes, paths are
-- lists of their parts, and a folder holds its files flat, as the program keeps a model.
pub mod Files
pub mod Fetch
pub mod Publish
pub mod Names
pub mod Checked
pub mod Placed
pub mod Moved
pub mod Complete
pub mod Stuck
pub mod Ended
pub mod Queue
pub mod Kept
pub mod Lost
pub mod Named
pub mod Listing
pub mod Grouped
mod Examples
