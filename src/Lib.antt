-- ===== src/Lib.antt =====
-- Models and proofs for pypilot-cxx, a C++ translation of the PyPilot autopilot server.
--
-- The program has one shared state (src/pypilot/syslib/data_model.hpp). Clients read and write it
-- by lines of text through a server (src/pypilot/server.cpp), which goes through a registry of
-- named values (src/pypilot/values.cpp); the motor controller is reached by four-byte packets
-- (src/pypilot/syslib/servo_protocol.hpp), and a line reader (src/async_event_loop/protocol_reader.hpp)
-- cuts a stream of bytes into lines. NMEA sentences set sensor data in the state, and an iteration
-- of the autopilot reads the state, steers and sends packets through the servo.
--
-- Files and what they model:
--   Float           `Real` and the C library's conversions: a record of operations that the
--                   definitions take as an instance argument, since they are not code of the
--                   repository; no law of rounding is assumed
--   DataModel       the structs of data_model.hpp and their initial values
--   Values/Fields   the table of descriptors and its look-ups by name and by field
--   Values/Writer   `ValueWriter`: a writer is a type `W` with a `write` that may fail
--   Values/Access   reads and writes of `ValueRegistry` by name, by field and from the wire
--   Values/Lines    the lines and the JSON that the registry writes
--   Values/Watches  the table of 64 watches, and the output of changed fields
--   Values/Due      the output of periodic watches
--   Server, Trim    `PypilotServer`: requests, watch expressions, polling. Preserved carries a relation
--                   between registries over the handling of a line, from the registry's operations;
--                   Marks, Safety and Session are such relations; Updates is what a poll shows
--   ServoProtocol   the checksum, the packets and the stream parser
--   LineReader      `LineProtocolReader`
--   Nmea            NMEA 0183 sentences (src/pypilot/syslib/nmea0183.hpp, src/pypilot/nmea.cpp)
--   Servo, Rudder   the control objects of src/pypilot/servo.cpp and rudder.cpp
--   Autopilot       an iteration of src/pypilot/autopilot.cpp, with the IMU, the pilots and the
--                   heading arithmetic of src/pypilot/resolv.hpp
--   EventLoop       the timers and polls of src/async_event_loop/event_loop.hpp
--   SyslibLoop      the timers of src/pypilot/syslib/event_loop.hpp, a second loop of the same kind,
--                   which the other code does not use
--   Client          `PypilotClient` (src/pypilot/client.cpp): Records builds and reads lines, Watches
--                   and Pending are its two tables, Session holds its state and its calls, Callbacks
--                   what it does when a connection calls back, Polls its run of the event loop, and
--                   Link the order of these as steps
--   Platform        the conversions of src/pypilot/platform.hpp
--   Exchange        the client and the server on each other's lines; Flow follows a field through
--                   requests, polls and bytes that arrive late and in pieces, Streamed through one poll;
--                   Relayed is what a client reads of a line
--   Prelude         the names that the files share, with lemmas on lists, texts and bits
--   Tests           runs of the model and an instance of each theorem that has hypotheses
--
-- A `char` or `uint8_t` is a number below 256 and a string is a list of them. Integers of a fixed
-- width keep their wrap-around (`% 2 ^ 64`), but for the handles of the event loops: an `int` counts
-- them in the code, a number without a bound here, so that what is shown of handles holds as long as
-- fewer than 2^31 were given out. An object that methods change is passed in and
-- returned, as is the writer that output is appended to; a result that a C++ function returns by a
-- reference and a flag is an `Option`.
--
-- Loops on data are recursions on it. Other loops have fuel and return none without it: the loop of
-- `handle_watch` takes a byte or more off its expression in each turn, so that its length is
-- enough; the loop of `emit_due_watches` moves a watch by a microsecond or more in each turn, or
-- ends in the first where the period is less than a microsecond, so that the clock's value is
-- enough, as long as no due watch's period reaches from the clock's value past 2^64. The two loops of
-- `resolv` have fuel as well; how many turns they take depends on the arithmetic of `float`, so that
-- theorems about an iteration take the computed heading error as a hypothesis.
--
-- The event loop's `run_once` has fuel for the turns that move one repeating timer past the clock:
-- one more than the clock's value is enough, as long as no period reaches past 2^64.
--
-- The client's connections are those of src/async_event_loop/tcp.hpp, interfaces without a class in
-- the repository: a connection is an address, and an instance argument says what its methods do to a
-- network. `tcp_stream_` is the address that it holds.
--
-- In a poll of the client the callbacks of others leave the client alone. A step of the server's
-- life may put any state behind the registry, as the control objects do. Where a client follows a
-- server (Exchange/Flow), what comes to it are the bytes of `collect_output`; the answers to requests
-- go to other clients, and what changes the state behind the registry leaves the followed field alone,
-- as the control objects do with ap.enabled, but not with servo.engaged. The server's `poll` is what it
-- does behind `run_once` of its loop, whose callbacks are not the server's and leave the registry alone.
--
-- Not modelled: the TCP options and handlers of servers; `connect` of the client, which fills the
-- options of a TCP client that is not in the repository; sleeping, but for how long the client's
-- `receive` asks to; the waiting of an iteration on its clock. The server and the control objects
-- take the event loop's clock as an argument.
pub mod Prelude
pub mod Float
pub mod Platform
pub mod ServoProtocol
pub mod LineReader
pub mod DataModel
pub mod Values
pub mod Trim
pub mod Server
pub mod Nmea
pub mod Servo
pub mod Rudder
pub mod Autopilot
pub mod EventLoop
pub mod SyslibLoop
pub mod Client
pub mod Exchange
mod Tests
