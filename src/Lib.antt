-- ===== src/Lib.antt =====
-- A model of the TCP client library (src/tcpclient.h, src/tcpclient.cpp), which exchanges blocks of
-- data with a server over several sockets, and of the programs' functions on top of it
-- (src/tcpclientapp.h, src/tcpclientapp.cpp, app/client-app/main.cpp).
--
-- The parts and their files:
--   Prelude        names of the libraries, tests, lists and signed results that all parts share.
--   Bytes          words in memory: uInt64ToChar8, char8ToUint64, reads and writes of a buffer.
--   Protocol       the constants and records of src/tcpclient.h.
--   Client         class TCPClient. Client/Os is what it calls of the operating system, Client/Monad
--                  its fields and the steps of its methods, Client/Base errors, closing and sleeping,
--                  Client/Send and Client/Receive the transfer, Client/Connect the opening of a
--                  connection, Client/Chunks the classes SendChunks and SendBlocks,
--                  Client/ReceiveChunks the class ReceiveChunks and receive_sync. Their children
--                  prove what the methods do; Client/Errors and Client/Hazards are about recorded
--                  errors and about calls that go wrong, Client/Receive/Room about a buffer of
--                  receive_tcp_io that is too short.
--   Frames         the wire format, as a description that does not mention the client.
--   Convertors     the files of src/tcpclientapp.cpp: Convertors/Ds8 is the ds8 format, whose blocks
--                  are the frames of the wire format, Convertors/Hex reads hex files and
--                  Convertors/Print writes them.
--   App            the functions that send and receive whole files (class TCPClientApp), as clients of
--                  the methods of TCPClient: App/Send and App/Receive; App/RoundTrip joins them
--                  with each other and with the converters, App/Independent is about the two
--                  threads on one client, and App/Status waits for them. App/Names has the helpers
--                  on names and files, App/Text and App/Timing what is printed, App/StdInOut the
--                  temporary files in the place of the standard streams, App/Main is `main` of
--                  app/client-app behind its parser, and App/Convert its command to convert.
--   StreamClient   class ossimTcpStreamClient, the socket of an image stream; it shares nothing with
--                  the other parts.
--   Examples       a concrete system, and the theorems at concrete inputs.
--
-- How state and operations correspond: a method is a function on the fields of the object and on the
-- system's state, in the monad of Client/Monad; its name is the source's in snake case. The system
-- is a record of functions (POSIX sockets, clock, sleep, name lookup), which no file of the
-- repository defines; what POSIX says of `send` and `recv` stands in the records SendLaws and
-- RecvLaws, and a theorem that needs it takes it as a hypothesis. A result of -1 is `negsuc 0`, -2 is
-- `negsuc 1`. A buffer is the list of its bytes and a null pointer is `none`; a read or write outside
-- of a buffer or a vector is the result `fault`.
--
-- Bounds and fuel: the host is little-endian. Lengths and block sizes that the source casts to `int`
-- are below 2 ^ 31; where a peer's value is cast, the cast is written out. A loop takes fuel, one unit
-- a round, and a method that may not end hands its fuel to its loops; running out is the result
-- `stuck`. The theorems give fuel for one round a byte, which is enough because a call of `send` or
-- `recv` that succeeds moves a byte at least. A theorem that a method never comes back holds for all
-- fuel.
--
-- A file is the list of its bytes, `none` if it cannot be opened; an output file that is open takes
-- every write. The block size in the header of a ds8 file is a 32-bit value. `ifs >> std::hex` is a
-- parameter of the converters that read hex files, with what the standard says of it as a hypothesis;
-- their fuel is one round for each character, and a block with a word takes at least one.
--
-- The source starts a receiver in a thread beside each sender of a file, on the same client. Here a
-- sender and a receiver are runs of their own. Behind connect, each moves on its own list of sockets,
-- turn and counters of the client (App/Independent); that both threads can record an error, change the
-- state and close the sockets, without a lock, and the order in which they call the system are outside of
-- the model. A name given for an output file is one that can be created, one that cannot, or none.
-- Converting a file onto itself is not modelled.
--
-- Not modelled: most messages to the console, what a stream writes of a floating-point number and the
-- quotient of two, which are parameters of App/Text and App/Timing, the threads and mutexes, Windows, the
-- parser of the command line (src/args.hxx, a copy of another project), and app/stream-image, which only
-- looks at the number of its arguments. What ossimTcpStreamClient takes of the ossim library is a
-- parameter.
pub mod App
pub mod Bytes
pub mod Client
pub mod Convertors
pub mod Examples
pub mod Frames
pub mod Prelude
pub mod Protocol
pub mod StreamClient
