-- ===== src/Wire.antt =====
-- What the code takes from quic-go, which is not in this repository: variable-length integers
-- (quicvarint), as operations and the documented behaviour that the code relies on.
use webtransport_h2_go.Prelude.{ℕ, ◌≤◌, ◌<◌, ◌^◌, ◌≡◌, List, [], ◌++◌, Option, none, some, length}
use webtransport_h2_go.Errors.{Error, Result, ok, err}

-- A reader of a capsule's value: the bytes that it will deliver, and how it ends: with io.EOF
-- (`none`) or with a fault of the CONNECT stream.
pub record Content : Type 0 where
  pub bytes : List ℕ
  pub fault : Option Error

-- `io.ReadAll(content)`
unfoldable pub read_all : Content → Result (List ℕ)
read_all c = elim c.fault [ none ↦ ok c.bytes | some e ↦ err e ]

-- `io.Copy(io.Discard, content)`
unfoldable pub discard : Content → Option Error
discard c = c.fault

pub record Quicvarint : Type 0 where
  -- `Append(dst, v)`
  pub append : List ℕ → ℕ → List ℕ
  -- `Read(NewReader(content))`: the number, and what is left to read
  pub read : Content → Result (ℕ × Content)
  -- `Parse(data)`: the number, and how many bytes it took
  pub parse : List ℕ → Result (ℕ × ℕ)

pub record IsQuicvarint (q : Quicvarint) : Type 0 where
  pub append_behind : (dst : List ℕ) (v : ℕ) → q.append dst v ≡ dst ++ q.append [] v
  pub read-append :
      (v : ℕ) (rest : List ℕ) (fault : Option Error)
      → v < 2 ^ 62
      → q.read (record { bytes = q.append [] v ++ rest; fault = fault })
        ≡ ok (v, record { bytes = rest; fault = fault })
  pub parse-append :
      (v : ℕ) (rest : List ℕ)
      → v < 2 ^ 62
      → q.parse (q.append [] v ++ rest) ≡ ok (v, length (q.append [] v))
  pub parse_range :
      (bytes : List ℕ) (v n : ℕ) → q.parse bytes ≡ ok (v, n) → (v < 2 ^ 62) × (n ≤ length bytes)
  pub read_range : (c c' : Content) (v : ℕ) → q.read c ≡ ok (v, c') → v < 2 ^ 62
