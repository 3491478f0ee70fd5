-- ===== src/Lib.antt =====
-- The core of the file server: its wire protocol (protocol/), its storage (storage/), its database
-- access (database/), its services (services/), its thread pool (threadpool/), the gateway in front of
-- them (gateway/), the calls between the processes and the registry of the services (rpc/), the client
-- and its console (client/), and the logger and the settings (common/).
--
-- How the parts interact: a client's bytes go through the decoder, which returns messages; each message
-- is a task of the thread pool, and the router finds the handler of its command, which checks the token
-- and calls the services. The services run in the server's process, or in processes of their own, which
-- are called by messages of the same protocol. The file service keeps one row per
-- file, through the data access object, and the bytes on the disk, through the storage manager; the
-- user service keeps the users and their tokens. The data access objects take connections from a pool.
-- A service in a process of its own registers its address in ZooKeeper, where the gateway finds it for
-- each call. The console asks the client for what is chosen from its menu.
--
-- Prelude: Boolean tests, lists, bytes, exclusive or, signed integers and decimal numbers over the
--   native numbers; Prelude/Dict: maps with numbers as keys; Prelude/Action: code that changes a state
--   and may throw.
-- Json: the JSON library as an interface, JsonLib, with the laws JsonLaws, and value() and at().
-- Protocol/Header: MessageHeader, EncodeTo and DecodeFrom (protocol/message_header.h).
-- Protocol/Crc: the table and the loop of CRC32; Protocol/Message: Message, Encode and EncodeBatch
--   (protocol/encoder.cc, protocol/message.h).
-- Protocol/Decoder: the state and the buffer of a decoder, TryParseMessage as try_parse_message with one
--   function per state, Feed as feed (protocol/decoder.cc). The children have the theorems.
-- Protocol/Body: GetJson, SetJson and GetCmd (protocol/message.cc).
-- Storage: the operations of StorageManager on a state of files and directories
--   (storage/storage_manager.cc). The operating system is the record Os, whose answers are arbitrary.
-- Database/Tables: the rows (database/user.h, database/file_info.h) and what the SQL statements select
--   and change. Database: the client library and the server as an interface, Mysql, with the laws
--   MysqlLaws; a statement may fail at every stage. Database/Reliable is an instance that never fails.
--   Database/FileDao and Database/UserDao: the data access objects (database/file_dao.cc,
--   database/user_dao.cc). Database/Laws and Database/Confirm: what they do to the rows.
-- Database/Pool: the pool of connections, as steps (database/mysql_pool.cc).
-- Services/Filename: SanitizeFilename and GenerateFilepath; Services/FileService: the other operations
--   of services/file_service.cc, on a pair of database and disk; the children have the theorems.
-- Services/UserService: services/user_service.cc; a token is made from a time and a random number.
-- Services/ChunkRpc: the handlers of uploads in chunks of services/file_service_server.cc and
--   services/storage_service_server.cc, on the arguments that they read.
-- Gateway/Sessions: the sessions of the open connections (gateway/network/tcp_connection_manager.cc).
-- Gateway/Processor: the decoders of the connections and the tasks
--   (gateway/handler/business_processor.cc, gateway/handler/task.h). Gateway/Work: ProcessTask and what it sends. Gateway/Closing:
--   the network server with the processor as its callback, and a connection that is closed. Gateway/Router: the table of
--   handlers (gateway/handler/request_router.cc). Gateway/Server: the handlers of
--   gateway/bin/server_main.cc, on the state of the file service. Gateway/Process: the handlers of
--   gateway/bin/gateway_main.cc, on an arbitrary function for the calls of the services.
-- Services/Methods: the methods of the services' processes from JSON to JSON
--   (services/user_service_server.cc, services/file_service_server.cc,
--   services/storage_service_server.cc). Services/ChunkMethods: the same for the uploads in chunks, and
--   the tables of the methods of the last two processes.
-- Network: the network library as a client uses it, an interface, and the wait for a connection
--   (rpc/rpc_client.cc, client/file_client.cc).
-- Gateway/TcpServer: the callbacks of the network library in the server
--   (gateway/network/tcp_server_wrapper.cc); its child has the events as steps.
-- Gateway/Discovery: the choice of a service's address and CallRpc, from the connection to the answer
--   (gateway/bin/gateway_main.cc).
-- Rpc/ZkClient: the registry (rpc/zk_client.cc). ZooKeeper's library is the record ZkLib, with the laws
--   ZkLaws of sequential nodes.
-- Rpc/Server: OnConnection, OnMessage and the task of a worker (rpc/rpc_server.cc); Rpc/Client: NextId,
--   SetPending, ResolvePending, OnMessage and the two halves of Call (rpc/rpc_client.cc); Rpc/Request:
--   what a call sends.
-- Client: the requests and the loops of UploadFile and DownloadFile, on an arbitrary function for
--   SendRequestWithBinary (client/file_client.cc). Client/Requests: the pending requests, OnMessage and
--   the two halves of SendRequestWithBinary. Client/Local: UploadFile and DownloadFile with the local
--   files; the local disk and the checksum are the record LocalDisk.
-- Console: the branches of the menu (client/console_ui.cc), on a record of the client's world, its token,
--   the typed lines and the shown text; Console/Resume: DoResumeUpload; Console/Menu: Run;
--   Console/Display: FormatSize and ShowProgress.
-- Common: GetEnv, GetEnvInt and the codes (common/common.h); Common/Logger: the logger
--   (common/logger.cc, common/logger.h).
-- ThreadPool: the queue and the workers, as steps (threadpool/thread_pool.cc).
-- Examples: a run of each theorem on concrete data.
--
-- Bounds and fuel: bytes are natural numbers, and theorems that need them below 256 say so; lengths in a
-- header are taken modulo 2 ^ 32 as the encoder does; database ids, sizes and offsets are unbounded
-- integers, so an overflow of int64_t is not modelled (the guards of validate_chunk exclude it where they
-- add and subtract). The loop
-- of Feed runs on the length of the buffer plus one, and always suffices: each round but the last takes
-- at least one byte off the buffer. The loops of the client run on a number of rounds; upload_file gives as many as
-- bytes are left, and one more, which suffices since each round but the last sends a byte at least; a
-- download may never end, and takes the number of its rounds from the caller. EnsurePath gets as many
-- rounds as the path has bytes, since each round goes on by one at least. ZkClient's Connect gets a
-- number of rounds from the caller; those of the timeout and one more are enough. The progress is
-- modelled for sizes that are not negative and whose product with 100 fits in 64 bits, and the time that
-- Connect has waited without the bounds of int, which a timeout keeps it in.
--
-- Not modelled: the network library itself, with the opening of connections and the sending of bytes; the
-- start of the processes, which reads the settings and starts the loops; the
-- times and the addresses of sessions, which nothing reads; the menu's text and the prompts of the
-- console; the lines that the other parts log; the removal of an empty directory by std::remove; and the
-- edition in Python under distributed/. A text of the table user is cut at a zero byte as the code does;
-- the texts of the table file_info are taken to hold none, as names and paths are made of cleaned names.
-- The order of the hash table of sessions is not modelled: the order of the list in its place means
-- nothing.
-- Concurrent calls of one service are not interleaved: an operation of a service is one step.
pub mod Prelude
pub mod Protocol
pub mod ThreadPool
pub mod Storage
pub mod Database
pub mod Gateway
pub mod Network
pub mod Rpc
pub mod Client
pub mod Console
pub mod Json
pub mod Common
pub mod Services
pub mod Examples
