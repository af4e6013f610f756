-- ===== src/Baton/Messages.antt =====
-- What a baton message carries: the round trip of codec.go, and which messages it accepts.
use webtransport_h2_go.Prelude.{
  ℕ, zero, suc, ◌+◌, ◌^◌, ◌<◌, ◌≡◌, ◌≢◌, inl, inr, ◌↔◌, refl, sym, ◌∙◌, ap, List, [], ◌∷◌, ◌++◌,
  some, length, take, drop, ℕ-cases, if◌then◌else◌, get_elem?, ltb, arith, length-append,
  drop-append_length, length-drop_le, take-append_length, append_assoc,
}
use webtransport_h2_go.Errors.{ok, Result-cases}
use webtransport_h2_go.Wire.{Quicvarint, IsQuicvarint}
use webtransport_h2_go.Fallible.{Try, done, failed}
use webtransport_h2_go.Baton.Codec.{
  DecodeError, encode_baton, decode_rest, decode_baton, trailing_data, out_of_range, truncated,
}

get-append_length : (p : List ℕ) (b : ℕ) → get_elem? (p ++ b ∷ []) (length p) ≡ some b
get-append_length [] b = refl
get-append_length (x ∷ p) b = get-append_length p b

decode_rest-append :
    (p : List ℕ) (b : ℕ) → length p < 2 ^ 62 → decode_rest (length p) (p ++ b ∷ []) ≡ done (p, b)
unfolding decode_rest
decode_rest-append p b h =
    rw (length-append p (b ∷ []), get-append_length p b, take-append_length p (b ∷ []))
      (ground arith)

-- The last byte of a list that is one longer than `n`.
split_last :
    (n : ℕ) (xs : List ℕ)
    → length xs ≡ n + 1
    → (b : ℕ) × (get_elem? xs n ≡ some b) × (xs ≡ take n xs ++ b ∷ []) × (length (take n xs) ≡ n)
split_last n [] h = absurd (omega (arith, h))
split_last zero (x ∷ []) h = (x, refl, refl, refl)
split_last zero (x ∷ y ∷ xs) h = absurd (omega (arith, h))
split_last (suc n) (x ∷ xs) h =
    let (b, g, e, l) = split_last n xs (omega (arith, h)) in (b, g, ap (◌∷◌ x) e, ap suc l)

-- Behind the padding's length a message is accepted exactly where it has the bytes announced, no more.
decode_rest-whole :
    (l : ℕ) (rest : List ℕ)
    → l < 2 ^ 62
    → length rest ≡ l + 1
    → (b : ℕ) × (decode_rest l rest ≡ done (take l rest, b))
      × (rest ≡ take l rest ++ b ∷ [])
      × (length (take l rest) ≡ l)
unfolding decode_rest
decode_rest-whole l rest h k =
    let (b, g, e, m) = split_last l rest k in (b, rw (g, k) (ground arith), e, m)

decode_rest-refused :
    (l : ℕ) (rest : List ℕ)
    → l < 2 ^ 62
    → length rest ≢ l + 1
    → decode_rest l rest
      ≡ failed (if ltb (length rest) (l + 1) then truncated l (length rest) else trailing_data)
unfolding decode_rest
decode_rest-refused l rest h k = ground arith

-- A parsed message: what is left to decide stands behind the number.
decode-parsed :
    (q : Quicvarint) (bytes : List ℕ) (l n : ℕ)
    → length bytes ≢ 0
    → q.parse bytes ≡ ok (l, n)
    → decode_baton q bytes ≡ decode_rest l (drop n bytes)
unfolding decode_baton
decode-parsed q bytes l n h e = rw e (ground arith)

done-inj :
    (p p' : List ℕ) (b b' : ℕ)
    → Path (Try DecodeError (List ℕ × ℕ)) (done (p, b)) (done (p', b'))
    → (p ≡ p') × (b ≡ b')
done-inj p p' b b' e = (cc, cc)

rest_accepts :
    (l : ℕ) (rest p : List ℕ) (b : ℕ)
    → l < 2 ^ 62
    → decode_rest l rest ≡ done (p, b)
    → (l ≡ length p) × (rest ≡ p ++ b ∷ [])
rest_accepts l rest p b h e = elim (ℕ-cases (length rest) (l + 1)) [
  | inl k ↦
      let (c, d, g, m) = decode_rest-whole l rest h k in
      let (u, v) = done-inj (take l rest) p c b (sym d ∙ e) in
      (sym m ∙ ap length u, g ∙ ap (λ r. r ++ c ∷ []) u ∙ ap (λ x. p ++ x ∷ []) v)
  | inr k ↦ absurd (ground (arith, sym (decode_rest-refused l rest h k) ∙ e))
]

-- The padding and the baton of a message that this endpoint encodes are decoded again.
decode-encode :
    (q : Quicvarint) (p : List ℕ) (b : ℕ)
    → IsQuicvarint q
    → length p < 2 ^ 62
    → decode_baton q (encode_baton q p b) ≡ done (p, b)
unfolding encode_baton
decode-encode q p b v h =
    let a = q.append [] (length p) in
    let bytes = (a ++ p) ++ b ∷ [] in
    let whole : bytes ≡ a ++ (p ++ b ∷ []) = append_assoc a p (b ∷ []) in
    let long : length bytes ≢ 0 = (λ z. omega (arith, z, length-append (a ++ p) (b ∷ []))) in
    decode-parsed q bytes (length p) (length a) long
      (ap q.parse whole ∙ v.parse-append (length p) (p ++ b ∷ []) h)
    ∙ ap (decode_rest (length p)) (ap (drop (length a)) whole ∙ drop-append_length a (p ++ b ∷ []))
    ∙ decode_rest-append p b h

decoded :
    (q : Quicvarint) (bytes p : List ℕ) (b : ℕ)
    → decode_baton q bytes ≡ done (p, b)
    → (length bytes ≢ 0) × ((l n : ℕ) × (q.parse bytes ≡ ok (l, n)))
unfolding decode_baton
decoded q bytes p b e = elim (Result-cases (q.parse bytes)) [
  | inl ((l, n), h) ↦ (λ z. ground arith, (l, n, h))
  | inr (x, h) ↦ absurd (ground arith)
]

-- A message is accepted exactly where the padding's length is a number that its bytes begin with, and
-- behind it stand that many bytes and one more, which is the baton.
pub decode_iff :
    (q : Quicvarint) (bytes p : List ℕ) (b : ℕ)
    → IsQuicvarint q
    → (decode_baton q bytes ≡ done (p, b))
      ↔ ((n : ℕ) × (q.parse bytes ≡ ok (length p, n)) × (drop n bytes ≡ p ++ b ∷ []))
decode_iff q bytes p b v = (
  λ e.
      let (long, (l, n, h)) = decoded q bytes p b e in
      let (same, behind) =
        rest_accepts l (drop n bytes) p b (v.parse_range bytes l n h).0
          (sym (decode-parsed q bytes l n long h) ∙ e) in
      (n, h ∙ ap (λ k. ok (k, n)) same, behind),
  λ (n, h, behind).
      let long : length bytes ≢ 0 =
        λ z. omega (arith, z, length-drop_le n bytes, ap length behind, length-append p (b ∷ [])) in
      decode-parsed q bytes (length p) n long h
      ∙ ap (decode_rest (length p)) behind
      ∙ decode_rest-append p b (v.parse_range bytes (length p) n h).0,
)

rest_no_panic : (l : ℕ) (rest : List ℕ) → l < 2 ^ 62 → decode_rest l rest ≢ failed out_of_range
rest_no_panic l rest h e = elim (ℕ-cases (length rest) (l + 1)) [
  | inl k ↦ let (c, d, g, m) = decode_rest-whole l rest h k in ground (arith, sym d ∙ e)
  | inr k ↦ ground (arith, sym (decode_rest-refused l rest h k) ∙ e)
]

-- No message makes `decodeBaton` index behind the end of its slice.
decode_no_panic :
    (q : Quicvarint) (bytes : List ℕ) → IsQuicvarint q → decode_baton q bytes ≢ failed out_of_range
unfolding decode_baton
decode_no_panic q bytes v e = elim (Result-cases (q.parse bytes)) [
  | inl ((l, n), h) ↦
      let long : length bytes ≢ 0 = λ z. ground arith in
      rest_no_panic l (drop n bytes) (v.parse_range bytes l n h).0
        (sym (decode-parsed q bytes l n long h) ∙ e)
  | inr (x, h) ↦ ground arith
]
