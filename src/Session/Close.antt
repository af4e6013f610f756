-- ===== src/Session/Close.antt =====
-- The end of a session: `Close`, `CloseWithError`, and what a peer's WT_CLOSE_SESSION says.
use webtransport_h2_go.Prelude.{
  ℕ, ◌+◌, ◌*◌, ◌/◌, ◌%◌, true, false, List, [], ◌∷◌, ◌++◌, Option, none, some, length, ltb,
  if◌then◌else◌, drop,
}
use webtransport_h2_go.Errors.{
  Error, Result, ok, err, application, session_closed, close_message_too_long,
  close_payload_too_short,
}
use webtransport_h2_go.Capsule
use webtransport_h2_go.Datagram
use webtransport_h2_go.Session.State.{Session, Transport, CloseReason}

-- `binary.BigEndian.PutUint32`
unfoldable pub put_uint32 : ℕ → List ℕ
put_uint32 code =
    (code / 16777216 % 256) ∷ (code / 65536 % 256) ∷ (code / 256 % 256) ∷ (code % 256) ∷ []

-- `binary.BigEndian.Uint32(payload[:4])`, of bytes
unfoldable pub uint32 : List ℕ → ℕ
uint32 (a ∷ b ∷ c ∷ d ∷ rest) = ((a * 256 + b) * 256 + c) * 256 + d
uint32 _ = 0

unfoldable pub parse_wt_close_session : List ℕ → Result (ℕ × List ℕ)
parse_wt_close_session payload =
    let message = drop 4 payload in
    if ltb (length payload) 4
    then err close_payload_too_short
    else if ltb 1024 (length message)
    then err close_message_too_long
    else ok (uint32 payload, message)

module _ {W : Type 0} where
  -- The first error stays.
  unfoldable pub set_close_err : Error → Session W → Session W
  set_close_err e s = elim s.close_err [ none ↦ record s { close_err = some e } | some f ↦ s ]

  unfoldable pub set_close_reason : CloseReason → Session W → Session W
  set_close_reason r s = elim s.close_reason [
    | none ↦ record s { close_reason = some r }
    | some f ↦ s
  ]

  unfoldable pub close_datagram_delivery : Session W → Session W
  close_datagram_delivery s = if s.close_datagram_delivery_once then s else record s {
    close_datagram_delivery_once = true;
    datagram_buffer = Datagram.close s.datagram_buffer;
  }

  -- What `closeOnce.Do` runs, in three steps that others see one after the other.
  abbrev pub store_stop : Session W → Session W
  store_stop s = record s { stop = true }

  abbrev pub close_done : Session W → Session W
  close_done s = record s { done = true }

  -- `Close` from start to end, as its caller sees it where no other goroutine runs in between.
  unfoldable pub close : Session W → Session W
  close s =
      if s.close_once
      then s
      else close_done (close_datagram_delivery (store_stop (record s { close_once = true })))

  -- The state `t` of a goroutine that has called `Close` last, which began it and has not yet come to its
  -- three steps; `s` is the state before.
  abbrev pub begun : Session W → Session W → Session W
  begun s t = record t {
    stop = s.stop;
    close_datagram_delivery_once = s.close_datagram_delivery_once;
    datagram_buffer = s.datagram_buffer;
    done = s.done;
  }

module _ {W : Type 0} (net : Transport W) where
  unfoldable pub write_capsule : ℕ → List ℕ → Session W → Session W × Option Error
  write_capsule typ payload s =
      let (writer, e) = net.write_capsule typ payload s.writer in (record s { writer = writer }, e)

  unfoldable pub flush : Session W → Session W
  flush s = record s { writer = net.flush s.writer }

  -- The part of `CloseWithError` behind a capsule that was written.
  unfoldable pub after_close_capsule :
      ℕ → List ℕ → Session W × Option Error → Session W × Option Error
  after_close_capsule code message (s, some e) = (s, some e)
  after_close_capsule code message (s, none) =
      (close (set_close_err (application code message false) (flush s)), none)

  unfoldable pub close_with_error : ℕ → List ℕ → Session W → Session W × Option Error
  close_with_error code message s =
      if ltb 1024 (length message)
      then (s, some close_message_too_long)
      else if s.stop
      then (s, some session_closed)
      else after_close_capsule code message
          (write_capsule Capsule.wt_close_session (put_uint32 code ++ message) s)
