-- ===== src/Memory.antt =====
-- services/memory_rs: the durable Markdown memory corpus.
pub mod Error
pub mod Path
pub mod Links
pub mod Runner
pub mod RunStream
pub mod Crates
pub mod Model
pub mod Sample
pub mod Frontmatter
pub mod Store
pub mod FsStore
pub mod Service
pub mod Wire
