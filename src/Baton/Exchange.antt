-- ===== src/Baton/Exchange.antt =====
-- internal/baton/session.go: what a baton session does with a message. A handler runs here without
-- others in between; Baton/Calls and Baton/Finish have those. `track` starts a goroutine: `tracked`
-- holds what was started, newest first. Logging is left out.
use webtransport_h2_go.Prelude.{
  ℕ, suc, zero, ◌+◌, ◌%◌, ◌&&◌, ◌||◌, not, Bool, true, false, List, [], ◌∷◌, Option, none, some,
  ◌==◌, if◌then◌else◌, ℤ, pos, negsuc, is_positive, pos_part, replicate,
}
use webtransport_h2_go.Errors.{Error, Result, ok, err}
use webtransport_h2_go.Wire.{Quicvarint}
use webtransport_h2_go.Session.State.{Session, Transport, Stream}
use webtransport_h2_go.Session.Close.{flush}
use webtransport_h2_go.Session.Send.{write, close_send, send_datagram}
use webtransport_h2_go.Session.Receive.{close_receive, close_stream}
use webtransport_h2_go.Session.Streams.{open_stream, open_unidirectional_stream}
use webtransport_h2_go.Fallible.{done, failed}
use webtransport_h2_go.Baton.Codec.{DecodeError, encode_baton, decode_baton}
use webtransport_h2_go.Baton.Config.{Config}

pub data StreamKind : Type 0 where
  kind_uni kind_peer_bidi kind_self_bidi kind_datagram : StreamKind

-- The `readerCloser` of a handler: a stream, or the receive half at an address.
pub data Source : Type 0 where
  from_stream : Stream → Source
  from_receive : ℕ → Source

pub data BatonError : Type 0 where
  da_yamn : Error → BatonError
  bruh : DecodeError → BatonError
  read_failed : StreamKind → Error → BatonError
  failed_with : Error → BatonError
  source_not_bidirectional unknown_kind : BatonError
  -- `ctx.Err()`
  canceled deadline_exceeded : BatonError

pub record BatonSession (W : Type 0) : Type 0 where
  pub sess : Session W
  pub is_server : Bool
  pub cfg : Config
  pub active : ℤ
  pub is_done : Bool
  pub first_err : Option BatonError
  pub tracked : List (Source × StreamKind)

abbrev pub decrement : ℤ → ℤ
decrement (pos zero) = negsuc 0
decrement (pos (suc n)) = pos n
decrement (negsuc n) = negsuc (n + 1)

-- `baton + 1` of a byte
unfoldable pub next_baton : ℕ → ℕ
next_baton baton = (baton + 1) % 256

abbrev pub keep_first : Option BatonError → Option BatonError → Option BatonError
keep_first none e = e
keep_first (some first) e = some first

module _ {W : Type 0} where
  unfoldable pub new_baton_session : Session W → Bool → Config → BatonSession W
  new_baton_session sess is_server cfg = record {
    sess = sess;
    is_server = is_server;
    cfg = cfg;
    active = cfg.count;
    is_done = false;
    first_err = none;
    tracked = [];
  }

  unfoldable pub finish : Option BatonError → BatonSession W → BatonSession W
  finish e b = record b { first_err = keep_first b.first_err e; is_done = true }

  unfoldable pub fail : BatonError → BatonSession W → BatonSession W
  fail e b = if b.is_done then b else finish (some e) b

  unfoldable pub complete_one : BatonSession W → BatonSession W
  complete_one b =
      let n = decrement b.active in
      let c : BatonSession W = record b { active = n } in if is_positive n then c else finish none c

  abbrev pub track : Source → StreamKind → BatonSession W → BatonSession W
  track src kind b = record b { tracked = (src, kind) ∷ b.tracked }

  abbrev pub put :
      BatonSession W → Session W × Option BatonError → BatonSession W × Option BatonError
  put b (s, e) = (record b { sess = s }, e)

  abbrev pub completed : ℕ → BatonSession W × Option BatonError → BatonSession W × Option BatonError
  completed baton (b, some e) = (b, some e)
  completed baton (b, none) = (if baton == 0 then complete_one b else b, none)

  abbrev pub fail_on : BatonSession W × Option BatonError → BatonSession W
  fail_on (b, none) = b
  fail_on (b, some e) = fail e b

module _ {W : Type 0} (net : Transport W) (q : Quicvarint) where
  abbrev after_close : Session W × Option Error → Session W × Option BatonError
  after_close (s, some e) = (s, some (failed_with e))
  after_close (s, none) = (flush net s, none)

  abbrev after_written :
      (Session W → Session W × Option Error) → Session W × Result ℕ → Session W × Option BatonError
  after_written close (s, err e) = (s, some (failed_with e))
  after_written close (s, ok n) = after_close (close s)

  -- `Write`, the stream's own way to close, and `Flush`, up to the first error.
  unfoldable pub send_all :
      ℕ
      → (Session W → Session W × Option Error)
      → List ℕ
      → Session W
      → Session W × Option BatonError
  send_all a close msg s = after_written close (write net q a msg s)

  abbrev on_new_uni : List ℕ → Session W × Result ℕ → Session W × Option BatonError
  on_new_uni msg (s, err e) = (s, some (da_yamn e))
  on_new_uni msg (s, ok a) = send_all a (close_send net q a) msg s

  unfoldable pub send_uni_msg : List ℕ → BatonSession W → BatonSession W × Option BatonError
  send_uni_msg msg b = put b (on_new_uni msg (open_unidirectional_stream b.sess))

  abbrev settle_bidi :
      ℕ → Stream → BatonSession W × Option BatonError → BatonSession W × Option BatonError
  settle_bidi baton st (b, some e) = (b, some e)
  settle_bidi baton st (b, none) =
      if baton == 0
      then (record b { sess = close_receive st.receive b.sess }, none)
      else (track (from_stream st) kind_self_bidi b, none)

  abbrev on_new_bidi :
      List ℕ → ℕ → BatonSession W → Session W × Result Stream → BatonSession W × Option BatonError
  on_new_bidi msg baton b (s, err e) = (record b { sess = s }, some (da_yamn e))
  on_new_bidi msg baton b (s, ok st) =
      settle_bidi baton st (put b (send_all st.send (close_send net q st.send) msg s))

  unfoldable pub send_on_new_bidi : List ℕ → ℕ → BatonSession W → BatonSession W × Option BatonError
  send_on_new_bidi msg baton b = on_new_bidi msg baton b (open_stream b.sess)

  -- The reply on the stream that the baton came on.
  abbrev send_back : List ℕ → Source → BatonSession W → BatonSession W × Option BatonError
  send_back msg (from_receive a) b = (b, some source_not_bidirectional)
  send_back msg (from_stream st) b = put b (send_all st.send (close_stream net q st) msg b.sess)

  unfoldable pub message : ℕ → BatonSession W → List ℕ
  message baton b = encode_baton q (replicate (pos_part b.cfg.padding) 0) baton

  unfoldable pub send_by_kind :
      ℕ → StreamKind → Source → BatonSession W → BatonSession W × Option BatonError
  send_by_kind baton kind_uni src b = send_on_new_bidi (message baton b) baton b
  send_by_kind baton kind_datagram src b = send_on_new_bidi (message baton b) baton b
  send_by_kind baton kind_peer_bidi src b = send_back (message baton b) src b
  send_by_kind baton kind_self_bidi src b = send_uni_msg (message baton b) b

  unfoldable pub send_next :
      ℕ → StreamKind → Source → BatonSession W → BatonSession W × Option BatonError
  send_next baton kind src b = completed baton (send_by_kind baton kind src b)

  -- The datagram that mirrors a message; an error is only logged.
  abbrev flush_sent : Session W × Option Error → Session W
  flush_sent (s, none) = flush net s
  flush_sent (s, some e) = s

  unfoldable pub mirror : ℕ → List ℕ → BatonSession W → BatonSession W
  mirror baton raw b =
      if b.is_server && (baton % 7 == 0) || not b.is_server && (baton % 7 == 1)
      then record b { sess = flush_sent (send_datagram net raw b.sess) }
      else b

  abbrev pub close_source : StreamKind → Source → BatonSession W → BatonSession W
  close_source kind_peer_bidi (from_stream st) b = record b {
    sess = (close_stream net q st b.sess).0;
  }
  close_source _ src b = b

  unfoldable pub after_receive : ℕ → List ℕ → StreamKind → Source → BatonSession W → BatonSession W
  after_receive baton raw kind src b =
      let c = mirror baton raw b in
      if baton == 0
      then close_source kind src (complete_one c)
      else fail_on (send_next (next_baton baton) kind src c)

  -- `handleIncoming`, with what `io.ReadAll` returned.
  unfoldable pub handle_incoming :
      Result (List ℕ) → StreamKind → Source → BatonSession W → BatonSession W
  handle_incoming (err e) kind src b = fail (read_failed kind e) b
  handle_incoming (ok bytes) kind src b = elim (decode_baton q bytes) [
    | failed e ↦ fail (bruh e) b
    | done (padding, baton) ↦ after_receive baton bytes kind src b
  ]

  unfoldable pub handle_datagram : List ℕ → BatonSession W → BatonSession W
  handle_datagram payload b = elim (decode_baton q payload) [
    | failed e ↦ fail (bruh e) b
    | done m ↦ b
  ]

  -- The loop of `setup`.
  unfoldable pub send_count : ℕ → ℕ → BatonSession W → BatonSession W × Option BatonError
  send_count zero baton b = (b, none)
  send_count (suc n) baton b =
      let (c, e) = send_uni_msg (message baton b) b in
      elim e [ some x ↦ (c, some x) | none ↦ send_count n baton c ]

  abbrev pub with_baton : Result ℕ → BatonSession W → BatonSession W × Option BatonError
  with_baton (err e) b = (b, some (failed_with e))
  with_baton (ok random) b =
      let baton = if random == 0 then 1 else random in
      send_count (pos_part b.cfg.count) baton (record b { cfg = record b.cfg { baton = baton } })

  -- `setup`, where `random` is the byte that `rand.Read` returns, or its error.
  unfoldable pub setup : Result ℕ → BatonSession W → BatonSession W × Option BatonError
  setup random b =
      if b.cfg.baton == 0
      then with_baton random b
      else send_count (pos_part b.cfg.count) b.cfg.baton b
