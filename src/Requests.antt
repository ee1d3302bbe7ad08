-- ===== src/Requests.antt =====
-- session.cpp, class CoreSession: the requests on objects, which combine the database, the modules and
-- the class definitions.
pub mod Services
pub mod Crypts
pub mod Naming
pub mod Cascade
pub mod Create
pub mod Unchanged
pub mod Told
pub mod Ends
pub mod Fitting
pub mod Delete
pub mod Removal
pub mod Update
pub mod Updating
pub mod Tests
