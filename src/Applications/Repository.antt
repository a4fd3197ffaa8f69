-- ===== src/Applications/Repository.antt =====
-- The application methods of `DatabaseRepository` (app/db/repository.py) over the rows of a session.
pub mod Store
pub mod Rows
pub mod Transition
pub mod Checkpoint
pub mod Answers
pub mod Queue
