-- ===== src/StreamId.antt =====
-- The numbering of streams in session.go. Bit 0 of an ID says who opened the stream (0: the
-- client), bit 1 says whether it is unidirectional.
pub mod Laws
use webtransport_h2_go.Prelude.{
  ℕ, ◌+◌, ◌%◌, Bool, true, false, not, bit_and, bit_or, ◌==◌, if◌then◌else◌, u64,
}

-- `isBidirectionalStream`
unfoldable pub is_bidirectional_stream : ℕ → Bool
is_bidirectional_stream id = bit_and id 0b10 == 0

-- `isOurStream`
unfoldable pub is_our_stream : Bool → ℕ → Bool
is_our_stream is_server id = if is_server then bit_and id 0b01 == 1 else bit_and id 0b01 == 0

-- `nextStreamID`: the new value of `createdStreamCounter`, and the ID.
unfoldable pub next_stream_id : Bool → ℕ → Bool → ℕ × ℕ
next_stream_id is_server counter bidirectional =
    let with_kind = if not bidirectional then bit_or counter 0b10 else counter in
    let base_id = if is_server then bit_or with_kind 0b01 else with_kind in
    ((counter + 4) % u64, base_id)
