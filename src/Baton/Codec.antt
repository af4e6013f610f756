-- ===== src/Baton/Codec.antt =====
-- internal/baton/codec.go: a baton message is the length of its padding as a variable-length
-- integer, the padding, and the baton in one byte.
use webtransport_h2_go.Prelude.{
  ℕ, ◌+◌, ◌%◌, not, List, [], ◌∷◌, ◌++◌, none, some, length, take, drop, get_elem?, ltb, ◌==◌,
  if◌then◌else◌, u64,
}
use webtransport_h2_go.Errors.{Error, ok, err}
use webtransport_h2_go.Wire.{Quicvarint}
use webtransport_h2_go.Fallible.{Try, done, failed}

-- `out_of_range` is the panic of an index behind the end of a slice.
pub data DecodeError : Type 0 where
  empty_message trailing_data out_of_range : DecodeError
  padding_length : Error → DecodeError
  truncated : ℕ → ℕ → DecodeError

unfoldable pub encode_baton : Quicvarint → List ℕ → ℕ → List ℕ
encode_baton q padding baton = (q.append [] (length padding) ++ padding) ++ baton ∷ []

-- What `decodeBaton` does behind the padding's length.
unfoldable pub decode_rest : ℕ → List ℕ → Try DecodeError (List ℕ × ℕ)
decode_rest pad_len rest =
    if ltb (length rest) ((pad_len + 1) % u64)
    then failed (truncated pad_len (length rest))
    else if not (length rest == (pad_len + 1) % u64)
    then failed trailing_data
    else elim (get_elem? rest pad_len) [
      | none ↦ failed out_of_range
      | some baton ↦ done (take pad_len rest, baton)
    ]

unfoldable pub decode_baton : Quicvarint → List ℕ → Try DecodeError (List ℕ × ℕ)
decode_baton q bytes = if length bytes == 0 then failed empty_message else elim (q.parse bytes) [
  | err e ↦ failed (padding_length e)
  | ok (pad_len, n) ↦ decode_rest pad_len (drop n bytes)
]
