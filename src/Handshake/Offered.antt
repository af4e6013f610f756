-- ===== src/Handshake/Offered.antt =====
-- The protocols of the header `WT-Available-Protocols` in server.go and client.go.
use webtransport_h2_go.Prelude.{
  ◌≡◌, refl, sym, ◌∙◌, ap, arith, List, [], ◌∷◌, ◌++◌, Option, some, append-nil, append_assoc,
  length, replicate, map, inl, inr,
}
use webtransport_h2_go.Errors.{Result, ok, Result-cases}
use webtransport_h2_go.Fallible.{done}
use webtransport_h2_go.Handshake.{Text, string, Sfv, IsSfv}
use webtransport_h2_go.Handshake.Server.{append_strings, parse_available_protocols}
use webtransport_h2_go.Handshake.Client.{offer, encode_available_protocols}

append_strings-map :
    (before ps : List Text) → append_strings before (map string ps) ≡ done (before ++ ps)
unfolding append_strings
append_strings-map before [] = ap done (sym (append-nil before))
append_strings-map before (p ∷ ps) =
    append_strings-map (before ++ p ∷ []) ps ∙ ap done (append_assoc before (p ∷ []) ps)

length-map : (ps : List Text) → length (map string ps) ≡ length ps
length-map [] = refl
length-map (p ∷ ps) = omega (arith, length-map ps)

header-eq :
    (t header : Text) → Path (Result (Option Text)) (ok (some t)) (ok (some header)) → t ≡ header
header-eq t header e = cc

decoded_list :
    (v : Sfv) (h ps : List Text)
    → v.decode_list h ≡ ok (map string ps)
    → parse_available_protocols v h ≡ done (replicate (length ps) [] ++ ps)
unfolding parse_available_protocols
decoded_list v h ps e =
    rw (e, parse_available_protocols)
      (append_strings-map (replicate (length (map string ps)) []) ps
        ∙ ap (λ n. done (replicate n [] ++ ps)) (length-map ps))

-- What `SelectProtocol` is given for the protocols that a client offers: as many empty strings as there
-- are protocols, and then the protocols, in the client's order.
pub offered_blanks :
    (v : Sfv) (p : Text) (ps : List Text) (header : Text)
    → IsSfv v
    → offer v (p ∷ ps) ≡ ok (some header)
    → parse_available_protocols v (header ∷ []) ≡ done (replicate (length (p ∷ ps)) [] ++ (p ∷ ps))
unfolding offer encode_available_protocols
offered_blanks v p ps header k e = elim (Result-cases (v.encode_list (map string (p ∷ ps)))) [
  | inr (x, d) ↦ absurd (ground (arith, d, e))
  | inl (t, d) ↦
      let same : t ≡ header = header-eq t header (sym (rw (d, offer) refl) ∙ e) in
      decoded_list v (header ∷ []) (p ∷ ps)
        (ap (λ x. v.decode_list (x ∷ [])) (sym same) ∙ k.list_again (map string (p ∷ ps)) t d)
]
