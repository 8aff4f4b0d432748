-- ===== src/Net.antt =====
-- Servers for remote clients: the component net/.
pub mod TcpCli
