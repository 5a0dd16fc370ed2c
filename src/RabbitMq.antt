-- ===== src/RabbitMq.antt =====
-- bingo/RabbitMQ: senders, receivers, their configuration and the handler of a connection.
pub mod Config
pub mod SendorCfg
pub mod RoutingCfg
pub mod ReceiverCfg
pub mod Sendor
pub mod Receiver
pub mod Factory
pub mod Buffer
pub mod AsioHandler
