-- ===== src/Proxy.antt =====
-- The sessions of clients: proxy/server.
pub mod Tokens
pub mod Preshard
pub mod Execute
