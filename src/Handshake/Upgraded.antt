-- ===== src/Handshake/Upgraded.antt =====
-- server.go: what `Upgrade` asks of a request, and what a protocol that is agreed on is.
use webtransport_h2_go.Prelude.{
  ◌≡◌, ◌↔◌, ◌⊎◌, refl, sym, ◌∙◌, ap, arith, ◌++◌, Bool, true, false, not, List, [], ◌∷◌, subst,
  Option, none, some, if◌then◌else◌, Bool-cases, ◌≢◌, inl, inr, eq_text, eq_text_iff, codes,
}
use webtransport_h2_go.Errors.{Error, Result, ok, err}
use webtransport_h2_go.Fallible.{done, ◌>>=◌}
use webtransport_h2_go.Session.State.{Session, new_session}
use webtransport_h2_go.Handshake.{Text, string, Sfv, peer_limits}
use webtransport_h2_go.Handshake.Server.{
  expected_connect, expected_http2, expected_webtransport, Request, Response, first, contains_text,
  parse_available_protocols, announce, negotiate, from_result, check_request, upgrade,
}
use webtransport_h2_go.Handshake.Agreement.{upgrade_negotiated, bind-done, done-inj, announced}

-- What becomes of a choice p among the protocols of the request's header: there is none, and no header;
-- or it is one of these protocols, and the header h is its encoding.
unfoldable pub IsChosen : Sfv → List Text → Text → Option Text → Type 0
IsChosen v available p h =
    ((p ≡ []) × (h ≡ none))
    ⊎ ((p ≢ [])
        × ((before after : List Text) × (available ≡ before ++ p ∷ after))
        × ((u : Text) × (v.encode_item (string p) ≡ ok u) × (h ≡ some u)))

-- The protocol p and the header h are agreed on: there is no SelectProtocol, and both are empty, or it
-- chose p.
unfoldable pub IsAgreed :
    Sfv → Option (Request → List Text → Result Text) → Request → Text → Option Text → Type 0
IsAgreed v none r p h = (p ≡ []) × (h ≡ none)
IsAgreed v (some select) r p h =
    (available : List Text) × (parse_available_protocols v r.wt_available_protocols
      ≡ done available)
    × (select r available ≡ ok p)
    × IsChosen v available p h

contains_text-found :
    (available : List Text) (p : Text)
    → contains_text available p ≡ true
    → (before after : List Text) × (available ≡ before ++ p ∷ after)
unfolding contains_text
contains_text-found [] p e = absurd (ground (arith, e))
contains_text-found (x ∷ xs) p e = elim (Bool-cases (eq_text x p)) [
  | inl y ↦ ([], xs, ap (λ z. z ∷ xs) ((eq_text_iff x p).0 y))
  | inr n ↦
      let (before, after, d) = contains_text-found xs p (ground (arith, n, e)) in
      (x ∷ before, after, ap (λ zs. x ∷ zs) d)
]

contains_text-middle :
    (before : List Text) (p : Text) (after : List Text)
    → contains_text (before ++ p ∷ after) p ≡ true
unfolding contains_text
contains_text-middle [] p after = ground (arith, (eq_text_iff p p).1 refl)
contains_text-middle (x ∷ before) p after = ground (arith, contains_text-middle before p after)

three_guards :
    {E : Type 0} (x y z : Bool) (a b c : E)
    → ((if not x then some a else if not y then some b else if not z then some c else none) ≡ none)
      ↔ ((x ≡ true) × (y ≡ true) × (z ≡ true))
three_guards false y z a b c = ground arith
three_guards true false z a b c = ground arith
three_guards true true false a b c = ground arith
three_guards true true true a b c = ground arith

check_request_iff :
    (r : Request)
    → (check_request r ≡ none) ↔ (
        (r.method ≡ codes "CONNECT")
        × (r.proto ≡ codes "HTTP/2.0")
        × (first r.protocol_values ≡ codes "webtransport"))
unfolding check_request
check_request_iff r =
    let (a, b) = eq_text_iff r.method (codes "CONNECT") in
    let (c, d) = eq_text_iff r.proto (codes "HTTP/2.0") in
    let (e, f) = eq_text_iff (first r.protocol_values) (codes "webtransport") in
    let (to, from) = three_guards _ _ _ expected_connect expected_http2 expected_webtransport in
    (λ n. let (x, y, z) = to n in (a x, c y, e z), λ (x, y, z). from (b x, d y, f z))

selected : (r : Result Text) (t : Text) → from_result r ≡ done t → r ≡ ok t
selected (ok a) t e = ap ok (cc e)
selected (err x) t e = absurd (ground (arith, e))

IsChosen-announce :
    (v : Sfv) (available : List Text) (p : Text) (h : Option Text)
    → IsChosen v available p h
    → announce v available p ≡ done (p, h)
unfolding announce IsChosen
IsChosen-announce v available [] h (inl (a, b)) = rw b refl
IsChosen-announce v available [] h (inr (n, found, coded)) = absurd (n refl)
IsChosen-announce v available (c ∷ cs) h (inl (a, b)) = absurd (ground (arith, a))
IsChosen-announce v available (c ∷ cs) h (inr (n, (before, after, d), (u, e, g))) =
    let found : contains_text available (c ∷ cs) ≡ true =
      rw d (contains_text-middle before (c ∷ cs) after) in
    rw (found, e, g, announce) refl

announce-IsChosen :
    (v : Sfv) (available : List Text) (t p : Text) (h : Option Text)
    → announce v available t ≡ done (p, h)
    → (t ≡ p) × IsChosen v available p h
unfolding announce IsChosen
announce-IsChosen v available [] p h e =
    let (a, b) = done-inj [] p none h e in (a, inl (sym a, sym b))
announce-IsChosen v available (c ∷ cs) p h e =
    let (y, a, chosen) = announced v available c cs p h e in
    let cell : c ∷ cs ≢ [] = λ x. ground (arith, x) in
    (
      sym a,
      subst (λ x. IsChosen v available x h) (sym a)
          (inr (cell, contains_text-found available (c ∷ cs) y, chosen)),
    )

negotiate_iff :
    (v : Sfv) (select : Option (Request → List Text → Result Text)) (r : Request) (p : Text)
    (h : Option Text)
    → (negotiate v select r ≡ done (p, h)) ↔ IsAgreed v select r p h
unfolding negotiate IsAgreed
negotiate_iff v none r p h =
    (λ e. let (a, b) = done-inj [] p none h e in (sym a, sym b), λ (a, b). rw (a, b) refl)
negotiate_iff v (some select) r p h = (
  λ e.
      let (available, x, m) =
        bind-done (parse_available_protocols v r.wt_available_protocols)
          (λ a. from_result (select r a) >>= (λ t. announce v a t)) (p, h) e in
      let (t, y, n) =
        bind-done (from_result (select r available)) (λ t. announce v available t) (p, h) m in
      let (a, chosen) = announce-IsChosen v available t p h n in
      (available, x, selected (select r available) t y ∙ ap ok a, chosen),
  λ (available, x, y, chosen). rw (x, y, negotiate) (IsChosen-announce v available p h chosen),
)

module _ {W : Type 0} where
  -- `Upgrade` returns a session exactly for a CONNECT request over HTTP/2 for webtransport, if a protocol
  -- is agreed on and full duplex is enabled; then the session has that protocol and the limits of the
  -- peer's SETTINGS, the response has the header that was agreed on, and the status was sent. Without
  -- SelectProtocol the protocol and the header are empty; with it, the protocol is its choice, which is
  -- empty and has no header, or is among those that the request's header offers and is encoded by it.
  pub upgrade_iff :
      (v : Sfv) (select : Option (Request → List Text → Result Text)) (duplex : Option Error)
      (w : W) (r : Request) (resp : Response) (s : Session W)
      → (upgrade v select duplex w r ≡ (resp, done s)) ↔ (
          (r.method ≡ codes "CONNECT")
          × (r.proto ≡ codes "HTTP/2.0")
          × (first r.protocol_values ≡ codes "webtransport")
          × (duplex ≡ none)
          × ((p : Text) × (h : Option Text) × IsAgreed v select r p h
              × (resp ≡ record { wt_protocol = h; accepted = true })
              × (s ≡ new_session w p true (peer_limits r.peer_settings))))
  upgrade_iff v select duplex w r resp s =
      let (to, from) = upgrade_negotiated v select duplex w r resp s in
      let (guards, pass) = check_request_iff r in
      (
        λ e.
            let (d, f, ((p, h), m, a, b)) = to e in
            let (x, y, z) = guards d in
            (x, y, z, f, (p, h, (negotiate_iff v select r p h).0 m, a, b)),
        λ (x, y, z, f, (p, h, m, a, b)).
            from (pass (x, y, z), f, ((p, h), (negotiate_iff v select r p h).1 m, a, b)),
      )
