-- ===== src/Package.antt =====
-- tools/package/main.go: the packaging tool. What it asks of the operating system and of its
-- libraries is a record of answers, each by the operations that were attempted so far.
pub mod Machine
pub mod Release
pub mod Finishing
pub mod Build
pub mod Files
pub mod Environment
pub mod Root
pub mod Growth
pub mod Endings
