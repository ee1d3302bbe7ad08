-- ===== src/Rpc.antt =====
-- rpc.cpp, class RPCHandler: the requests of clients, and the sessions that they open, use and close.
pub mod Handler
pub mod Binding
pub mod Admission
pub mod Tests
