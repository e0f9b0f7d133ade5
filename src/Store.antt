-- ===== src/Store.antt =====
-- internal/store: the local checkout of the desired state. The clients of git and S3 are parameters.
pub mod S3
pub mod Entries
pub mod Download
pub mod Cache
pub mod Mirror
pub mod Inside
pub mod Git
pub mod Served
