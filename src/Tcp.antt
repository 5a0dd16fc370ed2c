-- ===== src/Tcp.antt =====
-- bingo/TCP: the connection handlers of the server and of the client, and their configuration.
pub mod Types
pub mod Accounting
pub mod Reader
pub mod ServerHandler
pub mod ClientHandler
pub mod Client
pub mod Manager
pub mod SslHandler
pub mod Server
pub mod SslServer
pub mod Config
