-- ===== src/Session/Bounds.antt =====
-- What a session keeps for the application is bounded, whatever the peer sends.
use webtransport_h2_go.Capsule
use webtransport_h2_go.Datagram
use webtransport_h2_go.Datagram.Fifo
use webtransport_h2_go.Datagram.Fifo.{IsValid}
use webtransport_h2_go.Datagram.{DatagramReceiveBuffer}
use webtransport_h2_go.Buffer
use webtransport_h2_go.Buffer.{StreamReceiveBuffer, new_stream_receive_buffer}
use webtransport_h2_go.Session.State.{Session}
