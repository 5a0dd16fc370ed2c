-- ===== src/Lib.antt =====
-- bingo is a C++ library of network, database, thread and logging components. This library models
-- the parts that decide how a program built on it behaves: what arrives on a connection and in what
-- pieces, who frees a package, what a queue hands to its threads, what a query leaves behind, what
-- a broker is asked to publish.
--
-- How the parts interact. A connection handler (bingo/TCP/tcp_svr_handler.h, tcp_cet_handler.h,
-- tcp_svr_ssl_handler.h) receives into a block of bytes (bingo/mem_guard.h), asks the application
-- for the length of a body, and hands whole messages over. Any thread may ask it to send or to
-- close; those calls post jobs to the io_service. A manager (bingo/TCP/tcp_handler_manager.h,
-- tcp_svr_hdr_manager.h) keeps pointers to handlers and closes the late ones. A client
-- (bingo/TCP/tcp_client.h) connects, reconnects with a growing delay, and sends heartbeats. The
-- thread queues (bingo/thread) hand messages to one thread or to many. A database factory
-- (bingo/database/db_factory.cpp) runs queries on a pool of connectors or on a visitor. A RabbitMQ
-- factory (bingo/RabbitMQ/rabbitmq_factory.cpp) makes a sender or a receiver from a configuration
-- file: a sender packs a key and a body into one block, puts it into a thread queue, and publishes
-- it from there on the channel of the key; a connection (bingo/RabbitMQ/visitor/asiohandler.cpp)
-- carries the bytes of AMQP-CPP. Errors travel in error_what (bingo/error_what.h).
--
-- Which file models which part. Names are those of the source, unless a comment says otherwise.
-- - ErrorWhat.antt: bingo/error_what.h and error_what.cpp.
-- - MemGuard.antt: bingo/mem_guard.h, with size_t sums modulo 2 ^ 64 and a write out of bounds as a
--   fault. MemGuard/Bounds.antt has its theorems.
-- - Tcp/Types.antt, Tcp/Accounting.antt: what the handlers share, the effects they have, and counts
--   of effects.
-- - Tcp/Reader.antt: read_handler, close and close_completed, which the server's and the client's
--   handler spell out alike; a record Side holds what differs. Below it: Network and Stream (chunks
--   of bytes that arrive, and messages), Bounds, Framing, EmptyBody, Balance and Reconnects.
-- - Tcp/ServerHandler.antt: the rest of bingo/TCP/tcp_svr_handler.h; ServerHandler/World.antt puts
--   one handler into the io_service, with events in any order.
-- - Tcp/ClientHandler.antt: bingo/TCP/tcp_cet_handler.h. Tcp/SslHandler.antt:
--   bingo/TCP/tcp_svr_ssl_handler.h.
-- - Tcp/Server.antt: bingo/TCP/tcp_server.h. Tcp/SslServer.antt: bingo/TCP/tcp_ssl_server.h.
--   Tcp/Client.antt: bingo/TCP/tcp_client.h. Tcp/Manager.antt: the two managers.
--   Tcp/Config/Sendor.antt, Tcp/Config/Receiver.antt: bingo/TCP/config.
-- - Thread/ManyToOne.antt, Thread/ManyToMany.antt: bingo/thread/many_to_one.h and many_to_many.h,
--   as steps of critical sections in any interleaving.
-- - Database/Result.antt: db_field.cpp, db_row.cpp, db_result.cpp. Database/Connector.antt,
--   Database/Batch.antt: mysql/mysql_connector.cpp and mysql/mysql_visitor.cpp. Database/Pool.antt:
--   mysql/mysql_pool.cpp. Database/Config.antt: config/cfg.cpp. Database/Factory.antt:
--   db_factory.cpp and db_connector.cpp.
-- - Log.antt: bingo/log/log_level.cpp, logger.cpp, handlers/local_log_visitor.cpp,
--   config/local_cfg.cpp.
-- - Configuration.antt: bingo/configuration/node.h and node.cpp; Configuration/Checks.antt: the
--   checks of attributes that the readers of configurations repeat. PtrMap.antt: boost::ptr_map as
--   these readers use it. Singleton.antt: bingo/singleton.h. Strings.antt: bingo/string.cpp, with
--   Strings/Roundtrip.antt. Bytes.antt: std::string as a list of bytes, its comparison and its
--   order.
-- - RabbitMq/Config.antt, RabbitMq/SendorCfg.antt, RabbitMq/RoutingCfg.antt,
--   RabbitMq/ReceiverCfg.antt: bingo/RabbitMQ/config; their children Lookup and Values have the
--   theorems.
-- - RabbitMq/Sendor.antt: what the senders of bingo/RabbitMQ/handlers share; below it Keyed (the
--   configuration by key) with Simple, Work and Publishing, and Routed (the configuration by
--   routing key) with Routing and Topic, each with the methods of one source file, and the proofs
--   in Delivery, Published and Threads. RabbitMq/Receiver.antt: the receivers.
--   RabbitMq/Factory.antt: rabbitmq_factory.cpp.
-- - RabbitMq/Buffer.antt, RabbitMq/AsioHandler.antt: the classes AmqpBuffer and AsioHandler of
--   bingo/RabbitMQ/visitor/asiohandler.cpp, the latter as a machine whose events are completed
--   operations.
-- - Prelude.antt and its children: names and lemmas that the components share. Tests.antt and its
--   children: the theorems at concrete inputs.
--
-- What stands for code outside the repository. boost::asio: a call is an effect in a list, and its
-- completion an event with any error code and number of bytes, or the chunk that a read brings. The
-- MySQL library and server: a state, a function that executes a statement, and the outcome of a
-- connect; IsTransactional says what a transaction promises, and IsShaped what a result set looks
-- like. boost::to_lower, the clock, and the reader of a configuration file are arguments. AMQP-CPP:
-- parse of a connection is a function that gives the number of bytes used, a new state, and the
-- methods that it calls back; publish of a channel is a function into Bool; what a receiver asks of
-- a channel is a list. boost::property_tree: what a file gives for a node or a name is an argument;
-- lexical_cast, split, trim and to_lower are functions, with what a proof needs of them as a
-- hypothesis. The virtual functions that an application overrides are functions of the record
-- Application; IsSound and IsFrame say what is asked of them.
--
-- Bounds and fuel. Only the loop of the destructor of many_to_one runs on fuel, and one round is
-- enough; the loop of sprintf for a decimal number runs ten rounds, and a number below 2 ^ 32 has
-- ten digits at most. The reader's bounds need lengths whose sum stays below 2 ^ 64. All other
-- recursion is on a list or a number of rounds that the source itself counts.
--
-- What is not modelled: the parsers (bingo/configuration/xml and json), the log files, and the
-- hashes and uuids of bingo/string.cpp; they do not touch the state of the parts above. The endless
-- loops that connect a sender or a receiver to its broker again are left out, and with them the
-- time at which a value of a configuration gets its channel: the channel is a field with any value.
-- The lines of BINGO_MQ_DEBUG are left out. In many_to_many.h the destructor runs interleaved with
-- the threads, but a data race on its counter is not modelled beyond that. In the model of the SSL
-- handler a history ends when the handler is destroyed.
pub mod Prelude
pub mod Bytes
pub mod ErrorWhat
pub mod MemGuard
pub mod Tcp
pub mod Thread
pub mod Database
pub mod Log
pub mod Strings
pub mod Configuration
pub mod PtrMap
pub mod Singleton
pub mod RabbitMq
pub mod Tests
