-- ===== src/Session/Receive.antt =====
-- The receiving half of stream.go, and `Stream.Close`.
use webtransport_h2_go.Prelude.{ℕ, true, List, Option, none, some, if◌then◌else◌, store}
use webtransport_h2_go.Errors.{Error, Result, ok, err}
use webtransport_h2_go.Wire.{Quicvarint}
use webtransport_h2_go.Buffer.{StreamReceiveBuffer, Outcome}
use webtransport_h2_go.Buffer
use webtransport_h2_go.Session.State.{Session, Transport, ReceiveStream, Stream}
use webtransport_h2_go.Session.Send.{close_send}

abbrev pub error_of : Result ℕ → Option Error
error_of (ok n) = none
error_of (err e) = some e

module _ {W : Type 0} where
  -- The receive half behind an address.
  abbrev pub receiver : ℕ → Session W → ReceiveStream
  receiver a s = s.receive_heap.cell a

  abbrev pub put_receiver : ℕ → ReceiveStream → Session W → Session W
  put_receiver a st s = record s { receive_heap = store a st s.receive_heap }

  -- `receiveStreamData` of a payload that was read: data for a closed half is dropped.
  unfoldable pub receive_stream_data : ℕ → List ℕ → Session W → Session W × Option Error
  receive_stream_data a payload s =
      let st = receiver a s in
      let (buffer, r) = Buffer.write payload st.recv_buffer in
      if st.closed
      then (s, none)
      else (put_receiver a (record st { recv_buffer = buffer }) s, error_of r)

  -- `ReceiveStream.Read` with a slice of length `n`
  unfoldable pub read : ℕ → ℕ → Session W → Session W × Outcome
  read a n s =
      let st = receiver a s in
      let (buffer, o) = Buffer.read n st.recv_buffer in
      (put_receiver a (record st { recv_buffer = buffer }) s, o)

  -- `ReceiveStream.Close`
  unfoldable pub close_receive : ℕ → Session W → Session W
  close_receive a s =
      let st = receiver a s in
      if st.closed
      then s
      else put_receiver a (record st { closed = true; recv_buffer = Buffer.close st.recv_buffer }) s

  unfoldable pub finish_receive : ℕ → Session W → Session W
  finish_receive a s =
      let st = receiver a s in
      put_receiver a (record st { recv_buffer = Buffer.close st.recv_buffer }) s

-- `Stream.Close`
unfoldable pub close_stream :
    {W : Type 0} → Transport W → Quicvarint → Stream → Session W → Session W × Option Error
close_stream net q st s = close_send net q st.send (close_receive st.receive s)
