-- ===== src/Entity.antt =====
-- backend/domain/entity: the data that the components share, one child for each group of files.
pub mod Vote
pub mod Resolution
pub mod Evidence
pub mod Case
pub mod Config
