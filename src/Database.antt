-- ===== src/Database.antt =====
-- dbmanager.cpp and dbmanager.h, class DBManager: the objects of the control panel in SQL tables, who
-- has power over them, and the quotas.
pub mod Tables
pub mod Access
pub mod Quota
pub mod Insert
pub mod Update
pub mod Realm
pub mod Create
pub mod Powers
pub mod Frame
pub mod Mirror
pub mod Authority
pub mod Limits
pub mod Suffix
pub mod Deletion
pub mod Creation
pub mod Order
pub mod Rollback
pub mod Assignment
pub mod Special
pub mod Allowance
pub mod Login
pub mod Tree
pub mod Below
pub mod Descent
pub mod Tests
pub mod LoginTests
