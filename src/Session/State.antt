-- ===== src/Session/State.antt =====
-- The `Session` struct, its streams, and how it starts. The logger is left out. Streams are shared
-- between the maps, the channels and the application, so their halves are objects behind addresses.
use webtransport_h2_go.Prelude.{ℕ, Bool, false, List, [], Option, none, some, ℤ, pos, Map, Heap}
use webtransport_h2_go.Errors.{Error}
use webtransport_h2_go.Flow.{Endpoint, PeerInitialLimits, no_limits, adopt_peer_send_limits}
use webtransport_h2_go.Datagram.{DatagramReceiveBuffer, new_datagram_receive_buffer}
use webtransport_h2_go.Buffer.{StreamReceiveBuffer}

pub record ReceiveStream : Type 0 where
  pub id : ℕ
  pub closed : Bool
  pub recv_buffer : StreamReceiveBuffer

pub record SendStream : Type 0 where
  pub id : ℕ
  pub closed : Bool

-- A bidirectional stream: the addresses of its halves. It does not change.
pub record Stream : Type 0 where
  pub id : ℕ
  pub receive : ℕ
  pub send : ℕ

-- The writer of the CONNECT stream, which the HTTP library owns: `http3.WriteCapsule` with a type and a
-- value, and `Flush`, on a state `W`.
pub record Transport (W : Type 0) : Type 0 where
  pub write_capsule : ℕ → List ℕ → W → W × Option Error
  pub flush : W → W

-- What the read loop still has to do with the payload of a WT_STREAM capsule: hand it to the receive
-- half at `target`, and after a FIN forget the ID if the stream is unidirectional.
pub record Delivery : Type 0 where
  pub target : ℕ
  pub id : ℕ
  pub payload : List ℕ
  pub fin : Bool
  pub forget : Bool

-- Where the goroutine of `readLoop` stands.
pub data ReadLoop : Type 0 where
  at_top parsing exited : ReadLoop
  enqueuing_stream : Stream → Delivery → ReadLoop
  enqueuing_uni : ℕ → Delivery → ReadLoop
  delivering : Delivery → ReadLoop

pub data CloseReason : Type 0 where
  connect_fin error_reason : CloseReason

pub record Session (W : Type 0) : Type 0 where
  pub protocol : List ℕ
  pub stream_receive_buffer_size : ℤ
  pub datagram_receive_buffer_size : ℤ
  pub endpoint : Endpoint
  pub writer : W
  pub stop : Bool
  pub close_once : Bool
  pub done : Bool
  pub close_datagram_delivery_once : Bool
  -- channels of capacity 16
  pub incoming_streams : List Stream
  pub incoming_unidirectional_streams : List ℕ
  pub datagram_buffer : DatagramReceiveBuffer
  pub close_err : Option Error
  pub close_reason : Option CloseReason
  pub streams : Map Stream
  pub receive_streams : Map ℕ
  pub send_streams : Map ℕ
  pub receive_heap : Heap ReceiveStream
  pub send_heap : Heap SendStream
  pub loop : ReadLoop

abbrev pub default_receive_buffer_size : ℤ
default_receive_buffer_size = pos 65536

abbrev pub channel_capacity : ℕ
channel_capacity = 16

-- What stands at an address that no object has; no operation sees it.
abbrev no_receive_stream : ReceiveStream
no_receive_stream = record {
  id = 0;
  closed = false;
  recv_buffer = record { bytes = []; closed = false; max_bytes = default_receive_buffer_size };
}

abbrev no_send_stream : SendStream
no_send_stream = record { id = 0; closed = false }

abbrev initial_endpoint : Bool → Option PeerInitialLimits → Endpoint
initial_endpoint is_server none = record {
  is_server = is_server;
  created_stream_counter = 0;
  limits = no_limits;
}
initial_endpoint is_server (some peer) =
    adopt_peer_send_limits peer
      (record { is_server = is_server; created_stream_counter = 0; limits = no_limits })

-- `newSessionConfigured`: the read loop starts with the limits in place.
unfoldable pub new_session : {W : Type 0} → W → List ℕ → Bool → Option PeerInitialLimits → Session W
new_session writer protocol is_server peer = record {
  protocol = protocol;
  stream_receive_buffer_size = default_receive_buffer_size;
  datagram_receive_buffer_size = default_receive_buffer_size;
  endpoint = initial_endpoint is_server peer;
  writer = writer;
  stop = false;
  close_once = false;
  done = false;
  close_datagram_delivery_once = false;
  incoming_streams = [];
  incoming_unidirectional_streams = [];
  datagram_buffer = new_datagram_receive_buffer default_receive_buffer_size;
  close_err = none;
  close_reason = none;
  streams = [];
  receive_streams = [];
  send_streams = [];
  receive_heap = record { next = 0; cell = λ a. no_receive_stream };
  send_heap = record { next = 0; cell = λ a. no_send_stream };
  loop = at_top;
}
