-- ===== src/Session/Ending.antt =====
-- How a session ends: what `CloseWithError` sends, what the peer makes of it, and what stays.
use webtransport_h2_go.Prelude.{
  ℕ, ◌^◌, ◌≤◌, ◌<◌, ◌≡◌, ◌↔◌, refl, ◌∙◌, true, false, List, ◌++◌, Option, none, some, length, drop,
  arith,
}
use webtransport_h2_go.Errors.{Error, ok, application, session_closed, close_message_too_long}
use webtransport_h2_go.Wire.{Quicvarint, read_all}
use webtransport_h2_go.Capsule
use webtransport_h2_go.Datagram.{DatagramReceiveBuffer}
use webtransport_h2_go.Datagram
use webtransport_h2_go.Session.State.{Session, Transport, exited}
use webtransport_h2_go.Session.Close.{
  put_uint32, uint32, parse_wt_close_session, set_close_err, close_datagram_delivery, close,
  write_capsule, flush, after_close_capsule, close_with_error,
}
use webtransport_h2_go.Session.ReadLoop.{
  capsule, exit, with_value, handle_close, handle_capsule, parsed,
}

-- The payload that `CloseWithError` writes is read back as the same code and message.
pub parse-put :
    (code : ℕ) (message : List ℕ)
    → code < 2 ^ 32
    → length message ≤ 1024
    → parse_wt_close_session (put_uint32 code ++ message) ≡ ok (code, message)
unfolding parse_wt_close_session put_uint32 uint32
parse-put code message h k = ground arith

-- A payload is refused exactly when it is shorter than a code, or its message longer than 1024 bytes.
pub parse_iff :
    (payload : List ℕ)
    → ((r : ℕ × List ℕ) × (parse_wt_close_session payload ≡ ok r))
      ↔ ((4 ≤ length payload) × (length (drop 4 payload) ≤ 1024))
unfolding parse_wt_close_session
parse_iff payload =
    (λ h. ground (arith, h.1), λ h. ((uint32 payload, drop 4 payload), ground arith))

module _ {W : Type 0} where
  -- Closed: every flag is set, and the datagram buffer is closed.
  pub record IsClosed (s : Session W) : Type 0 where
    pub once : s.close_once ≡ true
    pub stopped : s.stop ≡ true
    pub finished : s.done ≡ true
    pub delivery : s.close_datagram_delivery_once ≡ true
    pub datagrams : s.datagram_buffer.closed ≡ true

  -- The flags of a session in which no `Close` is under way: they go together.
  pub record IsConsistent (s : Session W) : Type 0 where
    pub stopped : s.stop ≡ s.close_once
    pub finished : s.done ≡ s.close_once
    pub delivery : s.close_datagram_delivery_once ≡ s.close_once
    pub datagrams : s.datagram_buffer.closed ≡ s.close_once

  pub close-IsClosed : (s : Session W) → IsConsistent s → IsClosed (close s)
  unfolding close close_datagram_delivery Datagram.close
  close-IsClosed s c = ground arith

  pub close-close : (s : Session W) → close (close s) ≡ close s
  unfolding close close_datagram_delivery
  close-close s = ground arith

  pub close-keeps_err :
      (s : Session W)
      → ((close s).close_err ≡ s.close_err) × ((close s).close_reason ≡ s.close_reason)
  unfolding close close_datagram_delivery
  close-keeps_err s = ground arith

  pub exit-IsClosed : (s : Session W) → IsConsistent s → IsClosed (exit s)
  unfolding exit
  exit-IsClosed s c =
      let k = close-IsClosed s c in
      record {
        once = k.once;
        stopped = k.stopped;
        finished = k.finished;
        delivery = k.delivery;
        datagrams = k.datagrams;
      }

  pub exit-keeps_err :
      (s : Session W)
      → ((exit s).close_err ≡ s.close_err)
        × ((exit s).close_reason ≡ s.close_reason)
        × ((exit s).loop ≡ exited)
  unfolding exit
  exit-keeps_err s = let k = close-keeps_err s in (k.0, k.1, refl)

  set_err-IsConsistent :
      (e : Error) (s : Session W) → IsConsistent s → IsConsistent (set_close_err e s)
  unfolding set_close_err
  set_err-IsConsistent e s c = ground arith

  set_err_first :
      (e : Error) (s : Session W) → s.close_err ≡ none → (set_close_err e s).close_err ≡ some e
  unfolding set_close_err
  set_err_first e s h = ground arith

  -- A WT_CLOSE_SESSION capsule with a valid payload ends the session with the peer's code and message.
  pub close_capsule :
      (q : Quicvarint) (code : ℕ) (message : List ℕ) (s : Session W)
      → code < 2 ^ 32
      → length message ≤ 1024
      → IsConsistent s
      → s.close_err ≡ none
      → let t =
          parsed q
            (capsule Capsule.wt_close_session
              (record { bytes = put_uint32 code ++ message; fault = none }))
            s in
        IsClosed t × (t.close_err ≡ some (application code message true)) × (t.loop ≡ exited)
  unfolding parsed handle_capsule with_value read_all handle_close
  close_capsule q code message s h k c e =
      let t = set_close_err (application code message true) s in
      rw (parse-put code message h k, handle_close)
        (
          exit-IsClosed t (set_err-IsConsistent _ s c),
          (exit-keeps_err t).0 ∙ set_err_first _ s e,
          (exit-keeps_err t).2,
        )

module _ {W : Type 0} (net : Transport W) (code : ℕ) (message : List ℕ) (s : Session W) where
  abbrev written : W × Option Error
  written = net.write_capsule Capsule.wt_close_session (put_uint32 code ++ message) s.writer

  -- `CloseWithError` refuses a message of more than 1024 bytes, then a session that has ended, and
  -- changes nothing. If the capsule cannot be written it returns that error, and the session stays as
  -- it was but for the transport.
  close_with_error_fails :
      (1024 < length message
        → close_with_error net code message s ≡ (s, some close_message_too_long))
      × (length message ≤ 1024
          → s.stop ≡ true
          → close_with_error net code message s ≡ (s, some session_closed))
      × ((e : Error)
          → length message ≤ 1024
          → s.stop ≡ false
          → written.1 ≡ some e
          → close_with_error net code message s ≡ (record s { writer = written.0 }, some e))
  unfolding close_with_error write_capsule after_close_capsule
  close_with_error_fails = (λ h. ground arith, λ h k. ground arith, λ e h k w. rw w (ground arith))

  abbrev flushed : Session W
  flushed = record s { writer = net.flush written.0 }

  abbrev sent : Session W
  sent = set_close_err (application code message false) flushed

  close_with_error-sent :
      length message ≤ 1024
      → s.stop ≡ false
      → written.1 ≡ none
      → close_with_error net code message s ≡ (close sent, none)
  unfolding close_with_error write_capsule after_close_capsule flush
  close_with_error-sent h k w = ground (arith, w)

  close-writer : (t : Session W) → (close t).writer ≡ t.writer
  unfolding close close_datagram_delivery
  close-writer t = ground arith

  err-writer : (e : Error) (t : Session W) → (set_close_err e t).writer ≡ t.writer
  unfolding set_close_err
  err-writer e t = ground arith

  -- Otherwise it writes one WT_CLOSE_SESSION capsule with the code and the message, flushes, and closes
  -- the session, and `CloseErr` reports the code and the message as local.
  pub close_with_error_succeeds :
      length message ≤ 1024
      → s.stop ≡ false
      → written.1 ≡ none
      → IsConsistent s
      → s.close_err ≡ none
      → ((close_with_error net code message s).1 ≡ none)
        × ((close_with_error net code message s).0.writer ≡ net.flush written.0)
        × IsClosed (close_with_error net code message s).0
        × ((close_with_error net code message s).0.close_err
            ≡ some (application code message false))
  close_with_error_succeeds h k w c e = rw (close_with_error-sent h k w) (
    refl,
    close-writer sent ∙ (err-writer (application code message false) flushed),
    close-IsClosed sent (set_err-IsConsistent _ flushed (ground (arith, c))),
    (close-keeps_err sent).0 ∙ (set_err_first (application code message false) flushed e),
  )
