-- ===== src/Lib.antt =====
-- WebTransport over HTTP/2: a model of the Go package wth2 and of the endpoints built on it.
--
-- The program. An HTTP/2 extended CONNECT request opens a session (server.go, client.go). Both sides
-- then write capsules into the two halves of the CONNECT stream. One goroutine for each session, the
-- read loop of session.go, reads the peer's capsules, makes the streams that the peer opens, hands
-- payloads to their receive buffers (stream.go) and datagrams to a queue (datagram.go), and raises the
-- limits that the peer grants (flow.go). The application's goroutines open, accept, read, write and
-- close. The peer's first limits come from its HTTP/2 SETTINGS. internal/baton plays the Devious Baton
-- exchange on a session, internal/echo returns what it is sent, and cmd has the commands for both.
--
-- The parts, and the code that each is about:
--   Prelude      numbers (uint64 and int), lists, maps, objects behind addresses, texts, decimals
--   Errors, Fallible   the errors that the code tells apart; (A, error)
--   Wire         a capsule's value as a reader; quicvarint of quic-go, which is a parameter with the
--                behaviour that the code relies on (Examples/Varint has the instance of RFC 9000)
--   Capsule      capsule.go: the types and their names
--   StreamId     session.go: nextStreamID, isOurStream, isBidirectionalStream
--   Flow         flow.go: the send-side limits. Endpoint holds the fields of Session that it uses.
--                Charge (reserveSendData, refundSendData), Opens (allocLocalStream), Capsules and
--                Grants (handleSendLimitCapsule), Soundness (the limits hold), and Interleaving
--                (writers, openers and the read loop, one critical section at a time)
--   Datagram     datagram.go: the queue and its channel notify; Fifo without goroutines, Wakeup with
--                one reader that waits, TwoReaders with two
--   Buffer       stream.go: streamReceiveBuffer; Fifo, and Drain (reading to the end)
--   Session      session.go and stream.go. State has the struct; Close, Send, Receive, Streams and
--                ReadLoop the operations; Ending, Writing, Delivering, Reuse and PeerStreams what they
--                do; Steps lets the read loop, the calls of the application and the steps of Close run in any
--                order. Flags, Reachable and Completes, Registry, Routing and Routed, and Keeps, Within,
--                WithinLoop and Bounds are about what holds however they do; Invariant, Side, Quiet and
--                Closable are the rules for proving it
--   Link         two sessions at the ends of a connection, and a stream from one to the other. Sending,
--                OnWire, Receiving, Routes, Arriving, Holding, Settled, Delivered and Acting follow its
--                bytes, and Reliable puts them together
--   Echo         internal/echo: the handlers and the loops; Client (RunClient), Streams, Results
--   Settings     third_party/net/http2/webtransport_settings.go, the file of this project in its copy of
--                golang.org/x/net
--   Handshake    server.go and client.go: Server (Upgrade), Client (Connect), Agreement, Upgraded,
--                Offered
--   Baton        internal/baton: Codec and Messages (codec.go), Config and Query (config.go), Exchange,
--                Rules, Replies, Finish and Calls (session.go), Run, Pending, Rounds, Handled, Outcome and
--                Leftover (Run of session.go and handler.go)
--   Commands     cmd/echo and cmd/devious-baton: EchoCommand and BatonCommand, Dialling and Queries; the
--                handler around Upgrade of internal/echo/handler.go is in EchoCommand
--   Examples     concrete runs, and the theorems at concrete inputs
--
-- How code became definitions. A Go method is a function that takes the state and returns it with the
-- method's results; a nil error is none. A function that holds a mutex from start to end is one step.
-- Where a method gives the lock up, or waits, the parts between are functions of their own, and a step
-- relation runs them in any order: Flow.Interleaving (a write reserves, then hands its capsule over or
-- refunds), Datagram.Wakeup and Datagram.TwoReaders (the rounds of read), Session.Steps (the read loop
-- at its waiting points: the top, ParseCapsule, the hand-over of a new stream, and the delivery),
-- Baton.Finish, Link (both sessions and the wire between them) and Baton.Run (the loops, the handlers
-- and Run itself). In Session.Steps a write is one step, and so is a Close where nothing runs in between;
-- a step that ends with a Close can also leave it where it has taken closeOnce, and then what
-- closeOnce.Do runs (set stop, close the datagram buffer, close done) are three steps. In Baton.Run a
-- handler is one step up to its call of fail or finish, and the parts of these are steps
-- (Baton.Calls); Baton.Exchange has the same handler with that call run to its end, which is what the
-- parts come to where nothing runs in between. An echo handler runs without other goroutines in
-- between, and where the client waits, what the others make of the session meanwhile is an argument. A
-- select takes any of its ready cases: the case taken is an argument. Streams are shared between maps,
-- channels and callers, so their halves are objects in a heap and everything else holds addresses. The
-- CONNECT stream is a record of two functions on a state of any type (Session.State.Transport); what ParseCapsule
-- returns is an argument of the read loop's step; a value is its bytes with the fault at its end.
--
-- The limits. Flow.Interleaving starts from a session that has its peer's SETTINGS. A session without
-- them counts nothing, and what it sent before the first capsule puts limits in force is not charged
-- later. Session.Steps lets the application set StreamReceiveBufferSize at any time, also to a value
-- that switches the limit off; a bound on what a stream holds is then one on the values that were set.
--
-- Numbers. uint64 counters that the code adds to wrap at 2^64. Subtractions are guarded as in the code.
-- Go's int is an integer without bounds, but for strconv.Atoi, which checks 64 bits. Bytes are natural
-- numbers; a theorem that needs them below 256 says so. Loops are structural, but for the digits of a
-- decimal, where the number is its own fuel, since each round divides it by ten.
--
-- Link assumes that the connection delivers capsules whole and in order, and that it may break at any
-- time; what the receiving side does besides the stream is arbitrary. io.ReadAll in Echo has fuel: a round
-- more than there are bytes is enough, and the theorems say so.
--
-- Not modelled: logging and the meta data kept for it; of the commands the reading of flags, the dispatch
-- on a command's name, serve and the demo server, and with them TLS certificates and HTTP serving, which
-- are input, output and process control; the rest of third_party/net, a copy of another project. The
-- memory model is that of sequential consistency.
pub mod Prelude
pub mod Errors
pub mod Fallible
pub mod Wire
pub mod Capsule
pub mod StreamId
pub mod Flow
pub mod Datagram
pub mod Buffer
pub mod Session
pub mod Link
pub mod Echo
pub mod Baton
pub mod Settings
pub mod Handshake
pub mod Commands
pub mod Examples
