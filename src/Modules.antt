-- ===== src/Modules.antt =====
-- moduledb.cpp and module.cpp, classes ModuleDB, CoreModule and CoreClass: the modules of the control panel, their
-- classes, and the objects that they bring with them.
pub mod Flatten
pub mod Positions
pub mod Loading
pub mod Frame
pub mod Linked
pub mod Once
pub mod Termination
pub mod Classes
pub mod Action
pub mod Claims
pub mod Balance
pub mod Dispatch
pub mod Dispatched
pub mod Lost
pub mod DispatchTests
pub mod Normalize
pub mod Types
pub mod Typing
pub mod Import
pub mod Imported
pub mod Tests
pub mod ImportTests
