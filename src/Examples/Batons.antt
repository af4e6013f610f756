-- ===== src/Examples/Batons.antt =====
-- Messages, queries and exchanges of the baton endpoint.
use webtransport_h2_go.Prelude.{
  ℕ, ◌≡◌, ◌↔◌, refl, true, false, [], ◌∷◌, none, arith, pos, drop, get, lookup,
}
use webtransport_h2_go.Errors.{ok}
use webtransport_h2_go.Capsule
use webtransport_h2_go.Flow.{reserve_send_data}
use webtransport_h2_go.Session.State.{Stream}
use webtransport_h2_go.Fallible.{done, failed}
use webtransport_h2_go.Baton.Codec.{encode_baton, decode_baton, decode_rest, trailing_data}
use webtransport_h2_go.Baton.Messages.{decode_iff}
use webtransport_h2_go.Baton.Config.{Config, parse_query, query}
use webtransport_h2_go.Baton.Query.{parse_query-query}
use webtransport_h2_go.Baton.Exchange.{
  BatonSession, from_stream, kind_peer_bidi, handle_incoming, message, send_next,
}
use webtransport_h2_go.Baton.Replies.{incoming-IsFinal, reply_sent}
use webtransport_h2_go.Baton.Finish.{
  Finishing, Reach, SerialReach, here, next, outside, records, selects, closes, both_close,
  record_err, select_done, close_done,
}
use webtransport_h2_go.Examples.Varint.{
  parse, decode, more, size, encoding, rfc_9000, rfc_9000-IsQuicvarint,
}
use webtransport_h2_go.Examples.Sessions.{Log, keeping, server}

decode_iff_example : (decode_baton rfc_9000 (1 ∷ 0 ∷ 9 ∷ []) ≡ done (0 ∷ [], 9)) ↔ (
    (n : ℕ) × (rfc_9000.parse (1 ∷ 0 ∷ 9 ∷ []) ≡ ok (1, n))
    × (drop {A = ℕ} n (1 ∷ 0 ∷ 9 ∷ []) ≡ 0 ∷ 9 ∷ []))
decode_iff_example = decode_iff rfc_9000 (1 ∷ 0 ∷ 9 ∷ []) (0 ∷ []) 9 rfc_9000-IsQuicvarint

abbrev pub three_batons : Config
three_batons = record { version = pos 0; baton = 250; count = pos 3; padding = pos 4 }

parse_query-query_example :
    parse_query (query three_batons) ≡ done (record three_batons { padding = pos 0 })
parse_query-query_example =
    parse_query-query three_batons 3 refl refl (omega arith) (omega arith) (omega arith)

abbrev pub playing : BatonSession Log
playing = record {
  sess = server;
  is_server = false;
  cfg = three_batons;
  active = pos 3;
  is_done = false;
  first_err = none;
  tracked = [];
}

abbrev pub stream_0 : Stream
stream_0 = record { id = 0; receive = 0; send = 0 }

incoming-IsFinal_example :
    let c =
      handle_incoming keeping rfc_9000
        (ok (0 ∷ 0 ∷ []))
        kind_peer_bidi
        (from_stream stream_0)
        (record playing { is_done = true }) in
    (c.is_done ≡ true) × (c.first_err ≡ none)
incoming-IsFinal_example =
    incoming-IsFinal keeping rfc_9000 (ok (0 ∷ 0 ∷ [])) kind_peer_bidi (from_stream stream_0)
      (record playing { is_done = true }) refl

too_long : decode_baton rfc_9000 (0 ∷ 7 ∷ 7 ∷ []) ≡ failed trailing_data
unfolding decode_baton decode_rest parse decode more size
too_long = refl

reply_sent_example :
    let r = send_next keeping rfc_9000 8 kind_peer_bidi (from_stream stream_0) playing in
    (r.1 ≡ none)
    × (r.0.sess.writer
        ≡ (Capsule.wt_stream_fin, 0 ∷ [])
          ∷ (Capsule.wt_stream, 0 ∷ 4 ∷ 0 ∷ 0 ∷ 0 ∷ 0 ∷ 8 ∷ [])
          ∷ [])
unfolding encoding message encode_baton reserve_send_data get lookup
reply_sent_example = reply_sent keeping rfc_9000 8 stream_0 playing refl refl refl refl

abbrev two_handlers : Finishing
two_handlers = record { first_err = none; is_done = false; panicked = false; point = λ i. outside }

both_close_example : (t : Finishing) × Reach two_handlers t × (t.panicked ≡ true)
both_close_example = both_close two_handlers 0 1 refl (omega arith) refl refl

serial_run :
    SerialReach two_handlers (close_done 0 (select_done 0 (record_err 0 none two_handlers)))
unfolding record_err select_done close_done
serial_run =
    next 0
      (next 0 (next 0 here (λ j n. refl) (records none refl refl)) (λ j n. ground arith)
        (selects refl refl))
      (λ j n. ground arith) (closes refl refl)
