-- ===== src/Proto.antt =====
-- crates/proto: the commands of the RESP protocol.
pub mod Integer
pub mod Command
