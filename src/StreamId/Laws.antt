-- ===== src/StreamId/Laws.antt =====
-- The IDs that `nextStreamID` hands out.
use webtransport_h2_go.Prelude.{
  ℕ, ◌+◌, ◌/◌, ◌%◌, ◌≡◌, refl, Bool, true, false, not, arith, ◌==◌, if◌then◌else◌,
}
use webtransport_h2_go.Prelude.Bits.{bit_and-one, bit_and-two, bit_or-one, bit_or-two}
use webtransport_h2_go.StreamId.{is_bidirectional_stream, is_our_stream, next_stream_id}

-- The ID in arithmetic.
abbrev pub id_of : Bool → Bool → ℕ → ℕ
id_of is_server bidirectional counter =
    counter + (if bidirectional then 0 else 2) + (if is_server then 1 else 0)

pub next_stream_id-id_of :
    (is_server : Bool) (counter : ℕ) (bidi : Bool)
    → counter % 4 ≡ 0
    → (next_stream_id is_server counter bidi).1 ≡ id_of is_server bidi counter
unfolding next_stream_id
next_stream_id-id_of true c true h = rw (bit_or-one c (omega arith)) (omega arith)
next_stream_id-id_of true c false h =
    rw (bit_or-two c (omega arith), bit_or-one (c + 2) (omega arith)) (omega arith)
next_stream_id-id_of false c true h = omega arith
next_stream_id-id_of false c false h = rw (bit_or-two c (omega arith)) (omega arith)

pub is_bidirectional-mod : (id : ℕ) → is_bidirectional_stream id ≡ (id / 2 % 2 == 0)
unfolding is_bidirectional_stream
is_bidirectional-mod id = rw (bit_and-two id) (ground arith)

pub is_our-mod :
    (is_server : Bool) (id : ℕ)
    → is_our_stream is_server id ≡ (id % 2 == (if is_server then 1 else 0))
unfolding is_our_stream
is_our-mod true id = rw (bit_and-one id) refl
is_our-mod false id = rw (bit_and-one id) refl

-- An ID that this endpoint allocates is its own, carries the kind of stream that was asked for, and
-- never belongs to the peer.
pub next_stream_id_kind :
    (is_server : Bool) (counter : ℕ) (bidi : Bool)
    → counter % 4 ≡ 0
    → let id = (next_stream_id is_server counter bidi).1 in
      (is_our_stream is_server id ≡ true)
      × (is_our_stream (not is_server) id ≡ false)
      × (is_bidirectional_stream id ≡ bidi)
next_stream_id_kind is_server c bidi h = rw (next_stream_id-id_of is_server c bidi h) (
    ground (
      arith,
      is_our-mod is_server (id_of is_server bidi c),
      is_our-mod (not is_server) (id_of is_server bidi c),
      is_bidirectional-mod (id_of is_server bidi c),
    ))
