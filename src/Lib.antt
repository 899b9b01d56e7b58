-- ===== src/Lib.antt =====
-- GNU-Monitor (gmonitor): a transactional monitor. Clients send messages to a router, which passes
-- them by System V queues to servers that have subscribed to a function, and servers call one
-- another through the router.
--
-- What is modelled, and where:
-- - Base: Boolean tests, lists, signed integers, C strings. Service: return codes, message types and
--   words of raw messages (system/shared/gmerror.h, msgtype.h).
-- - Buffer: CGMBuffer, the byte buffer (system/shared/gmbuffer.cc).
-- - Ids: the search for a free identifier, GetNewId, which the timer table and the buffer server
--   share (system/servers/gm_timer/wtimer.cc, system/servers/gm_sbuffer/gmsbuffer.cc).
-- - Timers: CWTimer, the timer table (system/servers/gm_timer/wtimer.cc), and TimerServer: CGMTimer,
--   its messages and its loop (system/servers/gm_timer/gmtimer.cc).
-- - BufferServer: CGMSBuffer, which keeps the rest of long answers
--   (system/servers/gm_sbuffer/gmsbuffer.cc).
-- - SafIndex and SafFile: CGMSafFile, the store-and-forward file of records with its index in memory
--   (system/servers/gm_squeue/gmsafile.cc). The queue of the messages that wait is its abstract view.
-- - SafStore: CGMSaf, these files by their names (system/servers/gm_squeue/gmsaf.cc), and SafServer:
--   the services of the store-and-forward server on them (system/servers/gm_squeue/gm_squeue.cc).
-- - Transac: the keyed timers, the transaction numbers and the loop of the transaction server
--   (system/servers/gm_transac/wtimer.cc, transac.cc, gm_transac.cc).
-- - Tables: CGMTdb, the tables of servers and functions in shared memory, with the subscriptions and
--   the queues of a service (system/shared/gmontdb.cc).
-- - Router: SelectQueue, the choice of a queue among them; Routing: MsgQuery, the way of a message by
--   its type; Paging: MsgRouter for one message, with the pieces of long interactive answers
--   (system/router/gmt.cc).
-- - SincMem: CSincMem, shared memory with readers and writers (system/shared/sincmem.cc), as a step
--   relation on the places of the processes.
-- - GmString and Header: the fixed-width fields of gmstring.cc and CGMHeader, the header of a message
--   as its 228 bytes (system/shared/gmstring.cc, gmheader.cc), and Message: CGMessage, a header with
--   the text behind it (system/shared/gmessage.cc).
-- - ServerLoop: the loop of a server's process (system/queue/gmq.cc), which takes messages from the
--   queue, calls the server's methods, a parameter, and answers.
-- - Wire and Client: CGMClient, the client's library: the connection, the exchange of a message for
--   its answer and the transaction (system/client/gmc.cc).
-- - ServerBase: CGMServerBase, the requests of a server to the router, its subscriptions and its mode
--   of transactions (system/queue/gmsbase.cc).
-- A component's file holds its state as a record and one function for each operation, under the
-- source's name; the modules below it hold the proofs. Tests holds runs at concrete inputs.
--
-- Conventions. A byte is a number, a C string the bytes before its NUL, a pointer that may be NULL
-- an Option, a vector a list. The clock and what other processes answer are arguments.
-- Where the code writes behind the end of an array or uses a null pointer, the model answers none. Memory
-- allocation is taken to succeed, and log lines are left out.
--
-- Bounds. The loop of TimeOut takes fuel; more fuel than the seconds by which the timers are late
-- is enough, and so is more fuel than there are transactions for the loop over Check. Lengths stay
-- far below the range of their types and do not wrap; the sum in GetNewId is taken modulo 2 ^ 32
-- as in the source.
--
-- Not modelled: sockets, processes, signals and logging (system/listener, system/monitor, ctcp.cc,
-- glog.cc), the tools and the samples, which hold no logic of their own; and the parts of the
-- monitor that this library does not reach yet: the .tab files, the message queues (CMsg), and the
-- subscriptions of a client.
pub mod Base
pub mod Ids
pub mod Service
pub mod Buffer
pub mod Wire
pub mod Client
pub mod ServerBase
pub mod Timers
pub mod TimerServer
pub mod BufferServer
pub mod SafIndex
pub mod SafFile
pub mod SafStore
pub mod SafServer
pub mod Transac
pub mod Tables
pub mod Router
pub mod SincMem
pub mod GmString
pub mod Header
pub mod Message
pub mod ServerLoop
pub mod Routing
pub mod Paging
mod Tests
