-- ===== src/Tcp/Config.antt =====
-- bingo/TCP/config: the configuration of the TCP clients and of the server. What get_node gives for a
-- name, and lexical_cast to a port, are parameters.
pub mod Sendor
pub mod Receiver
