-- ===== src/Session/Completes.antt =====
-- session.go: a `Close` that has begun can come to its end.
use webtransport_h2_go.Datagram
use webtransport_h2_go.Datagram.{new_datagram_receive_buffer}
use webtransport_h2_go.Session.State.{Session}
