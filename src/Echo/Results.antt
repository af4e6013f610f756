-- ===== src/Echo/Results.antt =====
-- internal/echo/echo.go: what makes the client succeed, and what makes an echo fail.
use mathlib.Core.Option
use webtransport_h2_go.Prelude.{
  ◌⊎◌, inl, inr, sym, Bool-cases, eq_text_iff, eq_text, ℕ, ◌<◌, ◌≡◌, ◌↔◌, ◌∷◌, ◌-◌, false, refl, ap,
  ◌∙◌, arith, true, false, List, [], Option, none, some, length, if◌then◌else◌,
}
use webtransport_h2_go.Errors.{Error, ok, session_closed}
use webtransport_h2_go.Wire.{Quicvarint}
use webtransport_h2_go.Flow.{open_refused, alloc_local_stream}
use webtransport_h2_go.Session.State.{Stream, Session, Transport}
use webtransport_h2_go.Capsule
use webtransport_h2_go.Datagram
use webtransport_h2_go.Session.Close.{flush, write_capsule}
use webtransport_h2_go.Session.Send.{send_datagram}
use webtransport_h2_go.Session.Steps.{receive_datagram}
use webtransport_h2_go.Session.Receive.{receiver}
use webtransport_h2_go.Session.Streams.{
  accept_unidirectional_stream, open_stream, opened, open_unidirectional_stream,
}
use webtransport_h2_go.Echo.{reply_uni, echo_uni, echo_datagram}
use webtransport_h2_go.Echo.Client.{
  reads, with_stream, read_whole, on_stream, await_reply, EchoError, mismatch, checked, Mode,
  mode_bidi, mode_uni, mode_datagram, check_echo, Waits, exchange_bidi, exchange_uni,
  exchange_datagram, run_client,
}
use webtransport_h2_go.Echo.Streams.{read_all_of-bytes}

check_back :
    (mode : Mode) (p back : List ℕ)
    → ((check_echo mode p (ok back) ≡ none) ↔ (back ≡ p))
      × ((check_echo mode p (ok back) ≡ none)
          ⊎ (check_echo mode p (ok back) ≡ some (mismatch mode p back)))
unfolding check_echo
check_back mode p back = elim (Bool-cases (eq_text p back)) [
  | inl y ↦ rw y ((λ e. sym ((eq_text_iff p back).0 y), λ e. refl), inl refl)
  | inr n ↦ rw n (
    (
      λ e. absurd (ground (arith, e)),
      λ e. absurd (ground (arith, n, (eq_text_iff p back).1 (sym e))),
    ),
    inr refl,
  )
]

module _ {W : Type 0} (net : Transport W) (q : Quicvarint) where
  -- A client that has opened a bidirectional stream, has sent its bytes and a FIN, and then gets a FIN of
  -- the peer, whatever else happens to the session meanwhile, with one round of io.ReadAll more than
  -- there are bytes: RunClient returns, with nil exactly if the bytes that came back are those that were
  -- sent, and else with a mismatch that names both.
  pub bidi_echoed :
      (w : Waits W) (fuel : ℕ) (chunk : ℕ → ℕ) (p : List ℕ) (s t : Session W) (st : Stream)
      → let back = (receiver st.receive (w.later t)).recv_buffer.bytes in
        w.reply ≡ reads fuel chunk
        → with_stream net q p (open_stream s) ≡ (t, ok st)
        → (receiver st.receive (w.later t)).recv_buffer.closed ≡ true
        → length back < fuel
        → (u : Session W) × (e : Option EchoError) × (run_client net q w mode_bidi p s
            ≡ some (u, e))
          × ((e ≡ none) ↔ (back ≡ p))
          × ((e ≡ none) ⊎ (e ≡ some (mismatch mode_bidi p back)))
  unfolding run_client exchange_bidi await_reply
  bidi_echoed w fuel chunk p s t st r o k h =
      let back = (receiver st.receive (w.later t)).recv_buffer.bytes in
      let (u, d, n) = read_all_of-bytes fuel chunk st.receive [] back (w.later t) refl k h in
      let shown =
        ap (λ r. Option.map (checked net q mode_bidi p) (on_stream net q w r)) o
        ∙ ap
            (λ a.
              Option.map (checked net q mode_bidi p) (await_reply net q st.receive a (w.later t)))
            r
        ∙ ap (λ o. Option.map (checked net q mode_bidi p) (Option.map (read_whole net q) o)) d in
      let (iff, both) = check_back mode_bidi p back in
      (u, check_echo mode_bidi p (ok back), shown, iff, both)

  -- A client that has opened a unidirectional stream, has sent its bytes and a FIN on it, and then, whatever
  -- else happens to the session meanwhile, accepts a stream of the peer and gets a FIN on it, with one
  -- round of io.ReadAll more than there are bytes: RunClient returns, with nil exactly if the bytes on the
  -- stream that it accepted are those that were sent, and else with a mismatch that names both.
  pub uni_echoed :
      (w : Waits W) (fuel : ℕ) (chunk : ℕ → ℕ) (p : List ℕ) (s t v : Session W) (a : ℕ)
      → let back = (receiver a (w.later v)).recv_buffer.bytes in
        w.reply ≡ reads fuel chunk
        → reply_uni net q p s ≡ (t, none)
        → accept_unidirectional_stream w.accepting w.ctx_done (w.meanwhile t) ≡ some (v, ok a)
        → (receiver a (w.later v)).recv_buffer.closed ≡ true
        → length back < fuel
        → (u : Session W) × (e : Option EchoError) × (run_client net q w mode_uni p s ≡ some (u, e))
          × ((e ≡ none) ↔ (back ≡ p))
          × ((e ≡ none) ⊎ (e ≡ some (mismatch mode_uni p back)))
  unfolding run_client exchange_uni await_reply
  uni_echoed w fuel chunk p s t v a r o c k h =
      let back = (receiver a (w.later v)).recv_buffer.bytes in
      let (u, d, n) = read_all_of-bytes fuel chunk a [] back (w.later v) refl k h in
      let (iff, both) = check_back mode_uni p back in
      (
        u,
        check_echo mode_uni p (ok back),
        rw (run_client, exchange_uni, o, c, await_reply, r, d) refl,
        iff,
        both,
      )

  datagram_sent :
      (p : List ℕ) (s : Session W)
      → let (wire, e) = net.write_capsule Capsule.datagram p s.writer in
        s.stop ≡ false
        → e ≡ none
        → echo_datagram net q p s ≡ (record s { writer = net.flush wire }, none)
  unfolding echo_datagram send_datagram write_capsule flush
  datagram_sent p s a b = ground (arith, a, b)

  dequeued :
      (s : Session W) (back : List ℕ) (rest : List (List ℕ))
      → s.datagram_buffer.queue ≡ back ∷ rest
      → (u : Session W) × (receive_datagram s ≡ (u, Datagram.payload back))
        × (u.datagram_buffer.queue ≡ rest)
  unfolding receive_datagram Datagram.read
  dequeued s back rest c = (
    record s {
      datagram_buffer = record s.datagram_buffer {
        queue = rest;
        buffered_bytes = s.datagram_buffer.buffered_bytes - length back;
      };
    },
    rw c refl,
    refl,
  )

  -- A client whose datagram the transport takes as one DATAGRAM capsule, which is flushed, on a session that
  -- has not ended, and that then, whatever else happens to the session meanwhile, finds a datagram in
  -- the queue: RunClient takes this datagram off the queue and returns, with nil exactly if its bytes are
  -- those that were sent, and else with a mismatch that names both.
  pub datagram_echoed :
      (w : Waits W) (p back : List ℕ) (rest : List (List ℕ)) (s : Session W)
      → let (wire, e) = net.write_capsule Capsule.datagram p s.writer in
        s.stop ≡ false
        → e ≡ none
        → (w.meanwhile (record s { writer = net.flush wire })).datagram_buffer.queue ≡ back ∷ rest
        → (u : Session W) × (e : Option EchoError) × (run_client net q w mode_datagram p s
            ≡ some (u, e))
          × (u.datagram_buffer.queue ≡ rest)
          × ((e ≡ none) ↔ (back ≡ p))
          × ((e ≡ none) ⊎ (e ≡ some (mismatch mode_datagram p back)))
  unfolding run_client exchange_datagram
  datagram_echoed w p back rest s a b c =
      let (iff, both) = check_back mode_datagram p back in
      let t = record s { writer = net.flush (net.write_capsule Capsule.datagram p s.writer).0 } in
      let (u, d, n) = dequeued (w.meanwhile t) back rest c in
      (
        u,
        check_echo mode_datagram p (ok back),
        rw (run_client, exchange_datagram, datagram_sent p s a b, d) refl,
        n,
        iff,
        both,
      )

  refuses :
      (p : List ℕ) (s : Session W) (e : Error)
      → (if s.stop then some session_closed else open_refused false s.endpoint) ≡ some e
      → reply_uni net q p s ≡ (s, some e)
  unfolding reply_uni open_unidirectional_stream opened alloc_local_stream
  refuses p s e o = ground (arith, o)

  -- `echoUni` on a stream whose peer has sent its FIN, where no unidirectional stream can be opened, since
  -- the session has ended or the peer's grant of streams is used up: it returns that error, and nothing is
  -- sent.
  echo_uni_refused :
      (fuel : ℕ) (chunk : ℕ → ℕ) (a : ℕ) (s : Session W) (e : Error)
      → (receiver a s).recv_buffer.closed ≡ true
      → length (receiver a s).recv_buffer.bytes < fuel
      → (if s.stop then some session_closed else open_refused false s.endpoint) ≡ some e
      → (t : Session W) × (echo_uni net q fuel chunk a s ≡ some (t, some e)) × (t.writer ≡ s.writer)
  unfolding echo_uni
  echo_uni_refused fuel chunk a s e k h o =
      let (t, r, n) =
        read_all_of-bytes fuel chunk a [] (receiver a s).recv_buffer.bytes s refl k h in
      let refused : (if t.stop then some session_closed else open_refused false t.endpoint)
          ≡ some e =
        rw (n.stop, n.endpoint) o in
      let p = (receiver a s).recv_buffer.bytes in
      let out : reply_uni net q p t ≡ (t, some e) = refuses p t e refused in
      (t, rw (r, echo_uni) (ap some out), n.writer)
