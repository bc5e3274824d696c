-- ===== src/Mysql.antt =====
-- The wire format: mysql.
pub mod Util
pub mod PacketIo
