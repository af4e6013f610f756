-- ===== src/Session/Send.antt =====
-- The sending half of stream.go, and `SendDatagram`. A write runs here without other goroutines in
-- between; Flow/Interleaving has them.
use webtransport_h2_go.Prelude.{
  ℕ, true, List, [], ◌++◌, Option, none, some, length, if◌then◌else◌, replicate, ℤ, is_negative,
  pos_part, store,
}
use webtransport_h2_go.Errors.{
  Error, Result, ok, err, closed_pipe, negative_padding, session_closed,
}
use webtransport_h2_go.Wire.{Quicvarint}
use webtransport_h2_go.Capsule
use webtransport_h2_go.Flow.{reserve_send_data, refund_send_data}
use webtransport_h2_go.Session.State.{Session, Transport, SendStream}
use webtransport_h2_go.Session.Close.{write_capsule}

module _ {W : Type 0} where
  -- The send half behind an address.
  abbrev pub sender : ℕ → Session W → SendStream
  sender a s = s.send_heap.cell a

module _ {W : Type 0} (net : Transport W) where
  -- What `Write` returns, with the refund of a capsule that was not written.
  unfoldable pub after_write : ℕ → ℕ → Session W × Option Error → Session W × Result ℕ
  after_write id n (s, none) = (s, ok n)
  after_write id n (s, some e) = (record s { endpoint = refund_send_data id n s.endpoint }, err e)

  -- The part of `Write` behind the reservation.
  unfoldable pub write_reserved :
      Quicvarint → ℕ → List ℕ → Session W → Option Error → Session W × Result ℕ
  write_reserved q id p s (some e) = (s, err e)
  write_reserved q id p s none =
      after_write id (length p) (write_capsule net Capsule.wt_stream (q.append [] id ++ p) s)

  -- `SendStream.Write`
  unfoldable pub write : Quicvarint → ℕ → List ℕ → Session W → Session W × Result ℕ
  write q a p s =
      let st = sender a s in
      let reserved = reserve_send_data st.id (length p) s.endpoint in
      if st.closed
      then (s, err closed_pipe)
      else write_reserved q st.id p (record s { endpoint = reserved.0 }) reserved.1

  -- `SendStream.WritePadding`
  unfoldable pub write_padding : ℕ → ℤ → Session W → Session W × Option Error
  write_padding a n s =
      if (sender a s).closed
      then (s, some closed_pipe)
      else if is_negative n
      then (s, some negative_padding)
      else write_capsule net Capsule.padding (replicate (pos_part n) 0) s

  -- `SendStream.Close`
  unfoldable pub close_send : Quicvarint → ℕ → Session W → Session W × Option Error
  close_send q a s =
      let st = sender a s in
      if st.closed
      then (s, none)
      else write_capsule net Capsule.wt_stream_fin (q.append [] st.id)
          (record s { send_heap = store a (record st { closed = true }) s.send_heap })

  unfoldable pub send_datagram : List ℕ → Session W → Session W × Option Error
  send_datagram payload s =
      if s.stop then (s, some session_closed) else write_capsule net Capsule.datagram payload s
