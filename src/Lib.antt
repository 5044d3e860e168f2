-- ===== src/Lib.antt =====
-- The core of the Micro XRCE-DDS Agent: the messages that the agent and its clients exchange, the
-- streams of a session that number, order, fragment and repeat them, and the frames that carry
-- them over a serial line.
--
-- A received message (include/uxr/agent/message/InputMessage.hpp) is pushed into an input stream
-- of its session (include/uxr/agent/client/session/stream/InputStream.hpp), which hands messages
-- on in order; submessages for the client are put into messages
-- (include/uxr/agent/message/OutputMessage.hpp) by an output stream
-- (include/uxr/agent/client/session/stream/OutputStream.hpp), which keeps them until they are
-- acknowledged. Session.hpp finds the stream for an id. Sequence numbers are those of
-- include/uxr/agent/utils/SeqNum.hpp. A serial line carries messages in the frames of
-- src/cpp/transport/stream_framing/StreamFramingProtocol.cpp.
--
-- SeqNum: SeqNum.hpp; the theorems on its order are in SeqNum/Order.
-- Cdr: what the code uses of Fast CDR, which is not part of the repository, as a record of
--   operations and laws that every message takes as a parameter. Cdr/Sequence runs writes and
--   reads one after the other, and Cdr/ListCdr is an instance.
-- Message/Header: src/cpp/types/MessageHeader.cpp and SubMessageHeader.cpp. Message/Output and
--   Message/Input: OutputMessage.hpp and InputMessage.hpp. A generated submessage is its size and
--   its bytes. Message/Input/Count counts submessages, and Message/Input/RoundTrip reads what
--   Message/Output has written.
-- InputStream and OutputStream: the three kinds of streams, one file each. The state of a stream
--   is a record of the members; its operations hold the mutex of the stream, so each is one step.
--   RELIABLE_STREAM_DEPTH and BEST_EFFORT_STREAM_DEPTH, which the build sets, are parameters.
--   InputStream/Reliable/Delivery has the runs of an input stream, OutputStream/Reliable/Push the
--   fragments of an output stream, and OutputStream/Reliable/Window what it keeps.
--   `push_submessage` of the reliable stream is modelled from the end of its wait on.
-- SessionManager: include/uxr/agent/transport/SessionManager.hpp, which endpoint a client is at; how
--   its two maps agree is in SessionManager/Consistency.
-- Object: the classes under src/cpp/ that are an XRCEObject; Object/Id has their ids
--   (include/uxr/agent/utils/Conversion.hpp). The middleware is a record of functions on a state of
--   its own, one for all the functions of Middleware.hpp that differ in the class or the form only.
-- Client: src/cpp/client/ProxyClient.cpp. Client/Objects has the objects, Client/Proxy the state of
--   a client; what a creation does is in Client/Creation, what is found afterwards in Client/Lookup,
--   under which ids in Client/Kept and Client/Prefix, and which entities of the middleware are
--   alive in Client/Ownership.
-- Root: src/cpp/Root.cpp, the clients of the agent, with an iterator as the key that it stands at.
--   Root/Ascending has the order of the map, Root/Invariant what every operation keeps, and Root/Visit
--   the loop over the clients.
-- Processor: src/cpp/processor/Processor.cpp. Processor/Clients has the handler of CREATE_CLIENT,
--   and Processor/Admission what it leaves; Processor/Requests those of CREATE, DELETE, HEARTBEAT
--   and RESET, Processor/Data that of WRITE_DATA, Processor/Acknack that of
--   ACKNACK, and Processor/Resend what it sends. Processor/Info has GET_INFO and TIMESTAMP,
--   Processor/Reading READ_DATA and the callback of a reader's thread, Processor/Dispatch the choice
--   of the handler and FRAGMENT, and Processor/Packets what becomes of a packet. The loops there run
--   on fuel, one unit for a submessage or a message, with `none` where it runs out or the code throws.
--   Processor/Untouched and Processor/Isolation follow the other clients through the handlers,
--   Processor/Answered the acknowledgement of a packet, and Processor/Strangers the packets of
--   unknown clients.
--   Processor/Heartbeats has the round over the clients, Processor/Visits and Processor/Rounds what
--   one visit and one round leave of them, and Processor/Silence what becomes of a client that sends
--   nothing.
-- Session: Session.hpp, with its input methods in Session/Input and its output methods in
--   Session/Output.
-- Framing: StreamFramingProtocol.hpp; the writer is in Framing/Write, the reader in Framing/Read.
--   The callbacks are a record of functions on a state of the world outside.
-- Scheduler: include/uxr/agent/scheduler/PacketScheduler.hpp, the queues between the threads.
-- TokenBucket: include/uxr/agent/utils/TokenBucket.hpp, the tokens that a reader spends on a clock.
-- Ced: src/cpp/middleware/ced, the middleware without DDS. Ced/GlobalTopic is a topic with its last
--   samples, which Ced/Log compares with all that was written; Ced/Delivery and Ced/Published have
--   what readers get. Ced/Manager has the topics of all clients and the callbacks, and Ced/Informed,
--   Ced/Told and Ced/Notified who is told of them. Ced/Store and Ced/Entities have the entities of a client
--   with the lifetimes of what they share; Ced/Middleware fills the interface that Object uses, and
--   Ced/Live, Ced/Refinement and Ced/Client run the client's objects on it. Ced/Names has the names
--   in references. What others write while a reader waits is an argument of it.
-- Reassembly: fragments from an output stream through messages into an input stream.
-- Common: lists, dictionaries, tests and bits that the others share. Tests: concrete instances.
--
-- Loops run on fuel where they are not structural. The round over the clients takes one step for
-- each client and one more, as Root/Visit shows for its iterator. The fragment loop takes at most as
-- many rounds as the submessage has bytes, the loops of the frame writer at most two per byte and a few, and
-- both have `none` as the result when the fuel runs out. The loop of an ACKNACK takes at most 2^16
-- rounds, as every round brings two numbers of 16 bits one step closer.
--
-- Not modelled: the generated XRCE types, which are parameters; the middleware over DDS; the answer
-- to the discovery server; the threads of the readers and the data that they read; the limits of
-- UAGENT_RESTRICT and UAGENT_PROTECT; exceptions while a representation is read; the sockets,
-- threads and locks, logging, and the agent's command line. Sequences of bytes are lists of numbers.
pub mod Common
pub mod SeqNum
pub mod Cdr
pub mod Message
pub mod InputStream
pub mod OutputStream
pub mod Framing
pub mod Scheduler
pub mod Session
pub mod SessionManager
pub mod Object
pub mod Client
pub mod Root
pub mod Processor
pub mod Reassembly
pub mod Ced
pub mod TokenBucket
pub mod Tests
