-- ===== src/Examples/Varint.antt =====
-- Variable-length integers as RFC 9000, section 16, defines them: the assumptions on quicvarint hold of
-- these functions.
use native.Mathlib.Nat.{pow-suc}
use webtransport_h2_go.Prelude.{
  ℕ, zero, suc, ◌+◌, ◌-◌, ◌*◌, ◌/◌, ◌%◌, ◌^◌, ◌≤◌, ◌<◌, ◌≡◌, refl, ap, List, [], ◌∷◌, ◌++◌, Option,
  none, some, length, length-append, ltb, ◌==◌, if◌then◌else◌, arith, Option-cases, inl, inr,
}
use webtransport_h2_go.Errors.{Error, Result, ok, err, eof}
use webtransport_h2_go.Wire.{Content, Quicvarint, IsQuicvarint}

unfoldable pub byte : ℕ → ℕ → ℕ
byte v place = v / place % 256

unfoldable pub encoding : ℕ → List ℕ
encoding v =
    if ltb v 64
    then v ∷ []
    else if ltb v 16384
    then (64 + v / 256) ∷ byte v 1 ∷ []
    else if ltb v 1073741824
    then (128 + v / 16777216) ∷ byte v 65536 ∷ byte v 256 ∷ byte v 1 ∷ []
    else (192 + v / 72057594037927936)
      ∷ byte v 281474976710656
      ∷ byte v 1099511627776
      ∷ byte v 4294967296
      ∷ byte v 16777216
      ∷ byte v 65536
      ∷ byte v 256
      ∷ byte v 1
      ∷ []

-- `n` more bytes behind `acc`.
unfoldable pub more : ℕ → ℕ → List ℕ → Option (ℕ × List ℕ)
more zero acc bytes = some (acc, bytes)
more (suc n) acc [] = none
more (suc n) acc (b ∷ bytes) = more n (acc * 256 + b % 256) bytes

-- The bytes behind the first.
unfoldable pub size : ℕ → ℕ
size b =
    if b / 64 % 4 == 0 then 0 else if b / 64 % 4 == 1 then 1 else if b / 64 % 4 == 2 then 3 else 7

unfoldable pub decode : List ℕ → Option (ℕ × List ℕ)
decode [] = none
decode (b ∷ bytes) = more (size b) (b % 64) bytes

decode-encoding :
    (v : ℕ) (rest : List ℕ) → v < 2 ^ 62 → decode (encoding v ++ rest) ≡ some (v, rest)
unfolding decode encoding more size byte
decode-encoding v rest h = ground arith

more_range :
    (n acc top v : ℕ) (bytes rest : List ℕ)
    → more n acc bytes ≡ some (v, rest)
    → acc < top
    → (v < top * 256 ^ n) × (length bytes ≡ n + length rest)
unfolding more
more_range zero acc top v bytes rest e h = ground arith
more_range (suc n) acc top v [] rest e h = cc
more_range (suc n) acc top v (b ∷ bytes) rest e h =
    let rest_range = more_range n (acc * 256 + b % 256) (top * 256) v bytes rest e (omega arith) in
    omega (arith, rest_range, ap (λ (t : ℕ). top * t) (pow-suc 256 n))

unfoldable pub fault_of : Option Error → Error
fault_of none = eof
fault_of (some e) = e

unfoldable pub read : Content → Result (ℕ × Content)
read c = elim (decode c.bytes) [
  | none ↦ err (fault_of c.fault)
  | some (v, rest) ↦ ok (v, record c { bytes = rest })
]

unfoldable pub parse : List ℕ → Result (ℕ × ℕ)
parse bytes = elim (decode bytes) [
  | none ↦ err eof
  | some (v, rest) ↦ ok (v, length bytes - length rest)
]

size_le : (b : ℕ) → size b ≤ 7
unfolding size
size_le b = ground arith

decode_range :
    (bytes : List ℕ) (v : ℕ) (rest : List ℕ)
    → decode bytes ≡ some (v, rest)
    → (v < 2 ^ 62) × (length rest ≤ length bytes)
unfolding decode size
decode_range [] v rest e = cc
decode_range (b ∷ bytes) v rest e = ground (
  arith,
  more_range 0 (b % 64) 64 v bytes rest,
  more_range 1 (b % 64) 64 v bytes rest,
  more_range 3 (b % 64) 64 v bytes rest,
  more_range 7 (b % 64) 64 v bytes rest,
)

abbrev pub rfc_9000 : Quicvarint
rfc_9000 = record { append = λ dst v. dst ++ encoding v; read = read; parse = parse }

read-encoding :
    (v : ℕ) (rest : List ℕ) (fault : Option Error)
    → v < 2 ^ 62
    → read (record { bytes = encoding v ++ rest; fault = fault })
      ≡ ok (v, record { bytes = rest; fault = fault })
unfolding read
read-encoding v rest fault h = ground (arith, decode-encoding v rest h)

parse-encoding :
    (v : ℕ) (rest : List ℕ) → v < 2 ^ 62 → parse (encoding v ++ rest) ≡ ok (v, length (encoding v))
unfolding parse
parse-encoding v rest h = ground (arith, decode-encoding v rest h, length-append (encoding v) rest)

parse_range :
    (bytes : List ℕ) (v n : ℕ) → parse bytes ≡ ok (v, n) → (v < 2 ^ 62) × (n ≤ length bytes)
unfolding parse
parse_range bytes v n e = elim (Option-cases (decode bytes)) [
  | inl d ↦ ground (arith, d)
  | inr ((u, rest), d) ↦ ground (arith, d, decode_range bytes u rest d)
]

read_range : (c c' : Content) (v : ℕ) → read c ≡ ok (v, c') → v < 2 ^ 62
unfolding read
read_range c c' v e = elim (Option-cases (decode c.bytes)) [
  | inl d ↦ ground (arith, d)
  | inr ((u, rest), d) ↦ ground (arith, d, decode_range c.bytes u rest d)
]

pub rfc_9000-IsQuicvarint : IsQuicvarint rfc_9000
rfc_9000-IsQuicvarint = record {
  append_behind = λ dst v. refl;
  read-append = read-encoding;
  parse-append = parse-encoding;
  parse_range = parse_range;
  read_range = read_range;
}
