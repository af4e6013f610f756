-- ===== src/Baton/Replies.antt =====
-- What a handler of internal/baton/session.go sends, and that the end of a session is final.
use webtransport_h2_go.Prelude.{
  Bool, not, ◌||◌, ℕ, ◌≡◌, inl, inr, true, false, List, [], ◌++◌, Option, none, some, ◌==◌, length,
  arith, is_positive, Bool-cases,
}
use webtransport_h2_go.Errors.{Result, ok, err}
use webtransport_h2_go.Wire.{Quicvarint}
use webtransport_h2_go.Capsule
use webtransport_h2_go.Flow.{reserve_send_data}
use webtransport_h2_go.Session.State.{Transport, Stream}
use webtransport_h2_go.Session.Send.{sender, close_send}
use webtransport_h2_go.Session.Close.{write_capsule, flush}
use webtransport_h2_go.Session.Receive.{close_receive, close_stream}
use webtransport_h2_go.Session.Writing.{write_hands}
use webtransport_h2_go.Fallible.{failed, Try-cases}
use webtransport_h2_go.Baton.Codec.{DecodeError, decode_baton}
use webtransport_h2_go.Baton.Exchange.{
  BatonSession, BatonError, bruh, Source, from_stream, from_receive, StreamKind, kind_uni,
  kind_peer_bidi, kind_self_bidi, kind_datagram, next_baton, finish, fail, complete_one, message,
  send_next, send_by_kind, send_all, send_uni_msg, send_on_new_bidi, mirror, after_receive,
  handle_incoming, handle_datagram, completed, fail_on, close_source, read_failed,
}

abbrev pub is_some : {A : Type 0} → Option A → Bool
is_some none = false
is_some (some a) = true

module _ {W : Type 0} where
  -- The session failed, or waits for no baton.
  abbrev pub has_reason : BatonSession W → Bool
  has_reason b = is_some b.first_err || not (is_positive b.active)

  -- An end, and what it says, stay, and there is none without a reason.
  pub record IsFinal (b c : BatonSession W) : Type 0 where
    pub over : b.is_done ≡ true → c.is_done ≡ true
    pub says : b.is_done ≡ true → c.first_err ≡ b.first_err
    pub reason : (b.is_done ≡ true → has_reason b ≡ true) → c.is_done ≡ true → has_reason c ≡ true
    pub fewer : is_positive b.active ≡ false → is_positive c.active ≡ false

  pub IsFinal-trans : (b c d : BatonSession W) → IsFinal b c → IsFinal c d → IsFinal b d
  IsFinal-trans b c d i j = ground arith

  pub fail-IsFinal : (e : BatonError) (b : BatonSession W) → IsFinal b (fail e b)
  unfolding fail finish
  fail-IsFinal e b = ground arith

  complete-IsFinal : (b : BatonSession W) → IsFinal b (complete_one b)
  unfolding complete_one finish
  complete-IsFinal b = ground arith

  fail_on-IsFinal :
      (b : BatonSession W) (r : BatonSession W × Option BatonError)
      → IsFinal b r.0
      → IsFinal b (fail_on r)
  fail_on-IsFinal b (c, none) i = i
  fail_on-IsFinal b (c, some e) i = IsFinal-trans b c _ i (fail-IsFinal e c)

  completed-IsFinal :
      (baton : ℕ) (b : BatonSession W) (r : BatonSession W × Option BatonError)
      → IsFinal b r.0
      → IsFinal b (completed baton r).0
  completed-IsFinal baton b (c, some e) i = i
  completed-IsFinal baton b (c, none) i = elim (Bool-cases (baton == 0)) [
    | inl z ↦ rw z (IsFinal-trans b c _ i (complete-IsFinal c))
    | inr z ↦ rw z i
  ]

module _ {W : Type 0} (net : Transport W) (q : Quicvarint) where
  sent-IsFinal :
      (baton : ℕ) (kind : StreamKind) (src : Source) (b : BatonSession W)
      → IsFinal b (send_by_kind net q baton kind src b).0
  unfolding send_by_kind send_uni_msg send_on_new_bidi
  sent-IsFinal baton kind_uni src b = ground arith
  sent-IsFinal baton kind_datagram src b = ground arith
  sent-IsFinal baton kind_self_bidi src b = ground arith
  sent-IsFinal baton kind_peer_bidi src b = ground arith

  mirror-IsFinal :
      (baton : ℕ) (raw : List ℕ) (b : BatonSession W) → IsFinal b (mirror net q baton raw b)
  unfolding mirror
  mirror-IsFinal baton raw b = ground arith

  close_source-IsFinal :
      (kind : StreamKind) (src : Source) (b : BatonSession W)
      → IsFinal b (close_source net q kind src b)
  close_source-IsFinal kind_peer_bidi (from_stream st) b = ground arith
  close_source-IsFinal kind_peer_bidi (from_receive a) b = ground arith
  close_source-IsFinal kind_uni src b = ground arith
  close_source-IsFinal kind_self_bidi src b = ground arith
  close_source-IsFinal kind_datagram src b = ground arith

  sum-IsFinal :
      (baton : ℕ) (kind : StreamKind) (src : Source) (b : BatonSession W)
      → IsFinal b (send_next net q baton kind src b).0
  unfolding send_next
  sum-IsFinal baton kind src b =
      completed-IsFinal baton b (send_by_kind net q baton kind src b)
        (sent-IsFinal baton kind src b)

  after_receive-IsFinal :
      (baton : ℕ) (raw : List ℕ) (kind : StreamKind) (src : Source) (b : BatonSession W)
      → IsFinal b (after_receive net q baton raw kind src b)
  unfolding after_receive
  after_receive-IsFinal baton raw kind src b =
      let c = mirror net q baton raw b in
      IsFinal-trans b c _ (mirror-IsFinal baton raw b) (elim (Bool-cases (baton == 0)) [
        | inl z ↦ rw z (
            IsFinal-trans c (complete_one c) _ (complete-IsFinal c)
              (close_source-IsFinal kind src (complete_one c)))
        | inr z ↦ rw z (
            fail_on-IsFinal c (send_next net q (next_baton baton) kind src c)
              (sum-IsFinal (next_baton baton) kind src c))
      ])

  pub handle-IsFinal :
      (read : Result (List ℕ)) (kind : StreamKind) (src : Source) (b : BatonSession W)
      → IsFinal b (handle_incoming net q read kind src b)
  unfolding handle_incoming
  handle-IsFinal (err e) kind src b = fail-IsFinal (read_failed kind e) b
  handle-IsFinal (ok bytes) kind src b = elim (Try-cases (decode_baton q bytes)) [
    | inl ((p, baton), e) ↦ rw (e, handle_incoming) (after_receive-IsFinal baton bytes kind src b)
    | inr (x, e) ↦ rw (e, handle_incoming) (fail-IsFinal (bruh x) b)
  ]

  pub datagram-IsFinal :
      (payload : List ℕ) (b : BatonSession W) → IsFinal b (handle_datagram net q payload b)
  unfolding handle_datagram
  datagram-IsFinal payload b = elim (Try-cases (decode_baton q payload)) [
    | inl (m, e) ↦ rw (e, handle_datagram) (ground arith)
    | inr (x, e) ↦ rw (e, handle_datagram) (fail-IsFinal (bruh x) b)
  ]

  -- Once a session is done, no message, whatever its bytes, its kind and its stream, changes that or the
  -- error that `Run` will return.
  pub incoming-IsFinal :
      (read : Result (List ℕ)) (kind : StreamKind) (src : Source) (b : BatonSession W)
      → b.is_done ≡ true
      → let c = handle_incoming net q read kind src b in
        (c.is_done ≡ true) × (c.first_err ≡ b.first_err)
  incoming-IsFinal read kind src b h =
      let f = handle-IsFinal read kind src b in (f.over h, f.says h)

  -- A message that does not decode ends an open session with BRUH, on a stream and in a datagram, and
  -- nothing is sent.
  malformed :
      (bytes : List ℕ) (e : DecodeError) (kind : StreamKind) (src : Source) (b : BatonSession W)
      → decode_baton q bytes ≡ failed e
      → b.is_done ≡ false
      → b.first_err ≡ none
      → let ended = record b { is_done = true; first_err = some (bruh e) } in
        (handle_incoming net q (ok bytes) kind src b ≡ ended)
        × (handle_datagram net q bytes b ≡ ended)
  unfolding handle_incoming handle_datagram fail finish
  malformed bytes e kind src b h d f =
      (rw (h, handle_incoming) (ground arith), rw (h, handle_datagram) (ground arith))

  -- A reply on the stream that the baton came on, if the half is open, the grant covers it and the
  -- transport takes both capsules: one WT_STREAM capsule with the message and one WT_STREAM_FIN, in this
  -- order, then a flush; no error.
  pub reply_sent :
      (baton : ℕ) (st : Stream) (b : BatonSession W)
      → let s = b.sess in
        let id = (sender st.send s).id in
        let msg = message net q baton b in
        let data_sent = net.write_capsule Capsule.wt_stream (q.append [] id ++ msg) s.writer in
        let fin_sent = net.write_capsule Capsule.wt_stream_fin (q.append [] id) data_sent.0 in
        (sender st.send s).closed ≡ false
        → (reserve_send_data id (length msg) s.endpoint).1 ≡ none
        → data_sent.1 ≡ none
        → fin_sent.1 ≡ none
        → let r = send_next net q baton kind_peer_bidi (from_stream st) b in
          (r.1 ≡ none) × (r.0.sess.writer ≡ net.flush fin_sent.0)
  unfolding send_next send_by_kind send_all close_stream close_receive close_send write_capsule
      flush complete_one finish
  reply_sent baton st b c g d f =
      let w = (write_hands net q st.send (message net q baton b) b.sess c g).1 d in
      rw w (ground (arith, c, f))
