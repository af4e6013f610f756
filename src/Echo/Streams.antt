-- ===== src/Echo/Streams.antt =====
-- internal/echo/echo.go: what comes in on a stream goes out again, whole.
use webtransport_h2_go.Prelude.{
  ℕ, Heap, Option, zero, suc, ◌<◌, ◌≡◌, refl, ap, ◌∙◌, subst, arith, true, false, List, [], ◌∷◌,
  ◌++◌, none, some, length, take, drop, take-append-drop, append_assoc, append-nil, ==_refl,
}
use webtransport_h2_go.Errors.{Error}
use webtransport_h2_go.Wire.{Quicvarint}
use webtransport_h2_go.Capsule
use webtransport_h2_go.Buffer.{copied, ended}
use webtransport_h2_go.Buffer.Drain.{read_ended, read_copied, drop_shrinks}
use webtransport_h2_go.Flow.{Endpoint, reserve_send_data}
use webtransport_h2_go.Session.State.{Session, Transport, Stream, SendStream}
use webtransport_h2_go.Session.Close.{write_capsule, flush}
use webtransport_h2_go.Session.Send.{sender, close_send}
use webtransport_h2_go.Session.Receive.{receiver, put_receiver, read, close_receive, close_stream}
use webtransport_h2_go.Session.Writing.{write_hands}
use webtransport_h2_go.Echo.{read_all_of, send_and_close, reply_bidi, echo_bidi}

module _ {W : Type 0} where
  -- A half was read to its end, and nothing else was done to what writes need.
  pub record Drained (a : ℕ) (s t : Session W) : Type 0 where
    pub writer : t.writer ≡ s.writer
    pub endpoint : t.endpoint ≡ s.endpoint
    pub send_heap : t.send_heap ≡ s.send_heap
    pub stop : t.stop ≡ s.stop
    pub empty : (receiver a t).recv_buffer.bytes ≡ []

  read_some :
      (a n x : ℕ) (xs : List ℕ) (s : Session W)
      → (receiver a s).recv_buffer.bytes ≡ x ∷ xs
      → let h = receiver a s in
        read a n s ≡ (
          put_receiver a
              (record h { recv_buffer = record h.recv_buffer { bytes = drop n (x ∷ xs) } })
              s,
          copied (take n (x ∷ xs)),
        )
  unfolding read
  read_some a n x xs s e =
      let h = receiver a s in
      ap (λ r. (put_receiver a (record h { recv_buffer = r.0 }) s, r.1))
        (read_copied n x xs h.recv_buffer e)

  read_end :
      (a n : ℕ) (s : Session W)
      → (receiver a s).recv_buffer.bytes ≡ []
      → (receiver a s).recv_buffer.closed ≡ true
      → read a n s ≡ (put_receiver a (receiver a s) s, ended)
  unfolding read
  read_end a n s e c =
      let h = receiver a s in
      ap (λ r. (put_receiver a (record h { recv_buffer = r.0 }) s, r.1))
        (read_ended n h.recv_buffer e c)

  -- Reading a half behind a FIN ends, with exactly the bytes that it held.
  pub read_all_of-bytes :
      (fuel : ℕ) (chunk : ℕ → ℕ) (a : ℕ) (out bytes : List ℕ) (s : Session W)
      → (receiver a s).recv_buffer.bytes ≡ bytes
      → (receiver a s).recv_buffer.closed ≡ true
      → length bytes < fuel
      → (t : Session W) × (read_all_of fuel chunk a out s ≡ some (t, out ++ bytes)) × Drained a s t
  unfolding read_all_of
  read_all_of-bytes zero chunk a out bytes s e c h = absurd (omega arith)
  read_all_of-bytes (suc fuel) chunk a out [] s e c h =
      let t = put_receiver a (receiver a s) s in
      (
        t,
        rw (read_end a (suc (chunk fuel)) s e c, append-nil, read_all_of)
            (ap (λ r. some (r.0, out)) (read_end a (suc (chunk fuel)) s e c)),
        record {
          writer = refl;
          endpoint = refl;
          send_heap = refl;
          stop = refl;
          empty = rw (==_refl a) e;
        },
      )
  read_all_of-bytes (suc fuel) chunk a out (x ∷ xs) s e c h =
      let n = suc (chunk fuel) in
      let left = drop n (x ∷ xs) in
      let half = receiver a s in
      let u =
        put_receiver a (record half { recv_buffer = record half.recv_buffer { bytes = left } }) s in
      let (t, r, d) =
        read_all_of-bytes fuel chunk a (out ++ take n (x ∷ xs)) left u (rw (==_refl a) refl)
          (rw (==_refl a) c) (omega (arith, drop_shrinks (chunk fuel) x xs)) in
      (
        t,
        rw (read_some a n x xs s e, read_all_of)
            (ap (λ y. read_all_of fuel chunk a (out ++ take n (x ∷ xs)) y.0)
                (read_some a n x xs s e)
              ∙ r
              ∙ ap (λ y. some (t, y))
                  (append_assoc out (take n (x ∷ xs)) left
                    ∙ ap (◌++◌ out) (take-append-drop n (x ∷ xs)))),
        record {
          writer = d.writer;
          endpoint = d.endpoint;
          send_heap = d.send_heap;
          stop = d.stop;
          empty = d.empty;
        },
      )

module _ {W : Type 0} (net : Transport W) (q : Quicvarint) where
  -- What a reply comes to, from the send halves, the endpoint and the transport that it meets: if the
  -- half is open, the grant covers the bytes and the transport takes both capsules.
  abbrev Replies :
      Stream → List ℕ → Heap SendStream → Endpoint → W → Session W × Option Error → Type 0
  Replies st p halves e w r =
      let id = (halves.cell st.send).id in
      let data_sent = net.write_capsule Capsule.wt_stream (q.append [] id ++ p) w in
      let fin_sent = net.write_capsule Capsule.wt_stream_fin (q.append [] id) data_sent.0 in
      (halves.cell st.send).closed ≡ false
      → (reserve_send_data id (length p) e).1 ≡ none
      → data_sent.1 ≡ none
      → fin_sent.1 ≡ none
      → (r.1 ≡ none)
        × (r.0.writer ≡ net.flush fin_sent.0)
        × ((sender st.send r.0).closed ≡ true)
        × ((receiver st.receive r.0).closed ≡ true)

  replies :
      (st : Stream) (p : List ℕ) (s : Session W)
      → Replies st p s.send_heap s.endpoint s.writer (reply_bidi net q st p s)
  unfolding reply_bidi send_and_close close_stream close_receive close_send write_capsule flush
  replies st p s c g d f =
      let w = (write_hands net q st.send p s c g).1 d in
      rw w (ground (arith, c, f, ==_refl st.send, ==_refl st.receive))

  -- `echoBidi` on a stream whose peer has sent its FIN, whatever sizes io.ReadAll reads in, with one round
  -- more than there are bytes: it reads to the end, and if the send half is open, the grant covers the
  -- bytes and the transport takes both capsules, it sends the same bytes in one WT_STREAM capsule and then
  -- one WT_STREAM_FIN, flushes, has closed both halves, and returns no error.
  pub echo_bidi_whole :
      (fuel : ℕ) (chunk : ℕ → ℕ) (st : Stream) (s : Session W)
      → let p = (receiver st.receive s).recv_buffer.bytes in
        let id = (sender st.send s).id in
        let data_sent = net.write_capsule Capsule.wt_stream (q.append [] id ++ p) s.writer in
        let fin_sent = net.write_capsule Capsule.wt_stream_fin (q.append [] id) data_sent.0 in
        (receiver st.receive s).recv_buffer.closed ≡ true
        → length p < fuel
        → (sender st.send s).closed ≡ false
        → (reserve_send_data id (length p) s.endpoint).1 ≡ none
        → data_sent.1 ≡ none
        → fin_sent.1 ≡ none
        → (t : Session W) × (echo_bidi net q fuel chunk st s ≡ some (t, none))
          × (t.writer ≡ net.flush fin_sent.0)
          × ((sender st.send t).closed ≡ true)
          × ((receiver st.receive t).closed ≡ true)
  unfolding echo_bidi
  echo_bidi_whole fuel chunk st s k h c g d f =
      let p = (receiver st.receive s).recv_buffer.bytes in
      let (t, r, n) = read_all_of-bytes fuel chunk st.receive [] p s refl k h in
      let u = reply_bidi net q st p t in
      let same : Replies st p s.send_heap s.endpoint s.writer u =
        subst (λ x. Replies st p x s.endpoint s.writer u) n.send_heap
          (subst (λ x. Replies st p t.send_heap x s.writer u) n.endpoint
            (subst (λ x. Replies st p t.send_heap t.endpoint x u) n.writer (replies st p t))) in
      let (x, w, y, z) = same c g d f in
      (u.0, rw (r, echo_bidi) (ap (λ o. some (u.0, o)) x), w, y, z)
