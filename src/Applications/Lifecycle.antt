-- ===== src/Applications/Lifecycle.antt =====
-- What the life of an application is: app/db/repository.py and app/applications/service.py.
pub mod Assigned
pub mod Effect
pub mod History
pub mod Calls
pub mod Sessions
pub mod Reach
pub mod Terminal
pub mod Consistent
pub mod Secrecy
pub mod Closed
pub mod Order
pub mod Checkpoints
