-- ===== src/Lib.antt =====
-- The epoll http server: a web server that serves files and forwards requests to other servers, with
-- one event loop per thread. This library models its core, the code under src/, and proves what
-- makes it correct.
--
-- The parts and how they interact. The poll loop (src/PollLoop.cpp) waits for events on descriptors
-- and calls the executor of the connection (src/ExecutorData.h) that a descriptor belongs to. A
-- connection starts with src/executors/RequestExecutor.cpp, which reads into the ring buffer of the
-- connection (src/utils/TransferRingBuffer.h) and has src/HttpRequest.cpp parse it. A complete
-- request is handed on to src/executors/FileExecutor.cpp, which answers with a text of
-- src/HttpResponse.cpp and the file, or to a proxy, src/executors/ProxyExecutorReadWrite.cpp or
-- src/executors/ProxyExecutorSplice.cpp, which copies between two sockets. The executors register
-- and remove descriptors through the loop; its records of them come from a pool,
-- src/utils/BlockStorage.h.
--
-- Base holds numbers, lists, slices, integers and texts that the parts share.
-- Ring models src/utils/TransferRingBuffer.h. The memory is a list of `buf_size` bytes and a pointer
-- into it is an offset; `start_write` and `start_read` return the region that the source returns
-- through its references. Ring/Bounds has the invariant, Ring/Fifo the queue of bytes that the
-- buffer stands for, Ring/Transfer sequences of transfers.
-- Http models src/HttpRequest.cpp and src/HttpRequest.h. Http/Request is the state of the parser,
-- Http/Readers its functions read…, Http/Parser the loop of `parseInternal` with one function for
-- each case of its switch, Http/Url the decoding, the check and the prefix test of the URL,
-- Http/Methods the public methods.
-- Storage models src/utils/BlockStorage.h over a memory of links. Storage/Chains has the lists that
-- the links stand for, and Storage/Allocate, Storage/Blocks, Storage/Unlink and Storage/Release
-- follow the operations on them, Storage/Capacity the bound that the blocks set. A block has `size` items; the source has 1024 by default.
-- Exec models the connections: Exec/Data is src/ExecutorData.h, Exec/Sys the answers of the
-- operating system to the calls of one invocation, Exec/PollFds the four methods of
-- src/PollLoop.cpp that executors call, and Exec/Response, Exec/File, Exec/Request, Exec/ReadWrite
-- and Exec/Splice the executors. A handler is split where it branches on the answer of a system
-- call, so that each part is a function by clauses. Exec/Ssl is the part of
-- src/executors/SslFileExecutor.cpp, src/utils/SslUtils.cpp and
-- src/executors/SslRequestExecutor.cpp that does not hand a connection on, in the build with
-- USE_SSL.
-- Loop models the rest of src/PollLoop.cpp: the state of the loop and how connections come and go in
-- Loop, `init`, `run`, `checkTimeout` and `destroy` in Loop/Events, and in Loop/Handlers the
-- executors that work on the loop itself, src/executors/ServerExecutor.cpp and
-- src/executors/NewFdExecutor.cpp. A round of
-- `run` takes what epoll_wait(2) delivers; each event comes with the answers to the calls of its
-- handler. Loop/Timeout follows `checkTimeout`, Loop/Forget the events that follow
-- the removal of an executor, Loop/Handover the queue, Loop/Shutdown the end of the loop.
-- Config models src/utils/ConfigReader.cpp: one iteration of `configReadString` is split into
-- on_line, on_separator and on_value, and the map is a list by ascending keys. Config/Returns,
-- Config/RoundTrip and Config/Lines follow what it reads, Config/Behind one iteration with more
-- text behind it, Config/Ascending the order of the keys.
-- Params models src/ServerParameters.cpp, with `std::stoi` written out in Http/Libc; Params/Ports, Params/Proxies
-- and Params/Valid follow the steps of `load`.
-- Server models src/Server.cpp: `start`, `stop` and the choice of a loop for a new connection.
-- Log models src/log/LogMmap.cpp with src/utils/TransferBuffer.h and the filter of
-- src/log/LogBase.cpp: the mapped file is the memory of the buffer, and the archives are numbered
-- files. Log/Rotation follows the archives, Log/Append one message, Log/Write `writeLog`.
-- Net models the functions of src/utils/NetworkUtils.cpp that open a socket, whose results the
-- handlers take as answers.
--
-- Numbers. The `int` fields of the ring buffer and of the parser are natural numbers: they are
-- lengths and positions in buffers of at most REQUEST_BUFFER_SIZE bytes, and the invariants keep
-- them below the length of the buffer. The length that a header gives for the content is an integer,
-- with the wrap-around of `atoi`.
--
-- Fuel. `parse_internal` and `parse` take the number of iterations of the loop; `none` is a loop that
-- has not ended within them. Six for each unread byte and twelve more are enough, unless the loop
-- never ends (Http/Parser/Progress); Exec/Request gives this many. `read_lines` takes one more than
-- the length of the text, of which each iteration passes a part (Config/Returns).
--
-- Not modelled: system calls, `strptime`, `timegm` and `strftime`, and the queue of boost, which are
-- parameters; the threads themselves, whose loops share nothing but the queue; the log to standard
-- output and the formatting of messages; the rest of the executors that are built only with
-- USE_SSL, and the start-up of OpenSSL; the writing of parameters and statistics to the log.

pub mod Base
pub mod Ring
pub mod Http
pub mod Storage
pub mod Exec
pub mod Loop
pub mod Config
pub mod Params
pub mod Server
pub mod Log
pub mod Net
