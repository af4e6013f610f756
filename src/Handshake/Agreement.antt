-- ===== src/Handshake/Agreement.antt =====
-- What both sides know after server.go's `Upgrade` and client.go's `Connect`: the protocol, and the
-- limits that the peer's SETTINGS gave.
use webtransport_h2_go.Prelude.{
  ℕ, ◌≡◌, ◌↔◌, ◌⊎◌, refl, sym, ◌∙◌, ap, arith, Bool, true, false, List, [], ◌∷◌, ltb, leb, ◌||◌,
  Option, none, some, Bool-cases, Option-cases, inl, inr,
}
use webtransport_h2_go.Errors.{Error, Result, ok, err, Result-cases}
use webtransport_h2_go.Fallible.{Try, done, failed, Try-cases, ◌>>=◌}
use webtransport_h2_go.Flow.{adopt_peer_send_limits}
use webtransport_h2_go.Settings.{
  WebTransportSettings, settings, apply_all, no_settings, no_capture, store, get,
}
use webtransport_h2_go.Settings.Exchanged.{apply_all-settings}
use webtransport_h2_go.Session.State.{Session, new_session}
use webtransport_h2_go.Handshake.{Text, string, Sfv, IsSfv, peer_limits, peer_limits_from_settings}
use webtransport_h2_go.Handshake.Server.{
  Request, Response, contains_text, parse_available_protocols, announce, negotiate, from_result,
  check_request, start, upgrade,
}
use webtransport_h2_go.Handshake.Client.{
  HttpResponse, ConnectError, connection_failed, refused, parse_selected_protocol, decode_selected,
  connected,
}

-- The values of a header that a response sets, or not.
abbrev pub values : Option Text → List Text
values none = []
values (some t) = t ∷ []

abbrev pub is_response : Result HttpResponse → Bool
is_response (ok res) = true
is_response (err e) = false

pub bind-done :
    {E A B : Type 0} (m : Try E A) (f : A → Try E B) (b : B)
    → m >>= f ≡ done b
    → (a : A) × (m ≡ done a) × (f a ≡ done b)
bind-done (done a) f b e = (a, refl, e)
bind-done (failed x) f b e = ground (arith, e)

selected_again :
    (v : Sfv) (t p : Text)
    → IsSfv v
    → v.encode_item (string p) ≡ ok t
    → parse_selected_protocol v (t ∷ []) ≡ done p
unfolding parse_selected_protocol decode_selected
selected_again v [] p k e = absurd (k.item_filled (string p) e)
selected_again v (c ∷ cs) p k e = rw (k.item_again (string p) (c ∷ cs) e, decode_selected) refl

pub done-inj :
    {E : Type 0} (p p' : Text) (h h' : Option Text)
    → Path (Try E (Text × Option Text)) (done (p, h)) (done (p', h'))
    → (p ≡ p') × (h ≡ h')
done-inj p p' h h' e = (cc, cc)

-- A protocol that is announced was offered, and the header is its encoding.
pub announced :
    (v : Sfv) (available : List Text) (c : ℕ) (cs p : Text) (h : Option Text)
    → announce v available (c ∷ cs) ≡ done (p, h)
    → (contains_text available (c ∷ cs) ≡ true)
      × (p ≡ c ∷ cs)
      × ((u : Text) × (v.encode_item (string (c ∷ cs)) ≡ ok u) × (h ≡ some u))
unfolding announce
announced v available c cs p h e = elim (Bool-cases (contains_text available (c ∷ cs))) [
  | inr n ↦ absurd (ground (arith, n, e))
  | inl y ↦ elim (Result-cases (v.encode_item (string (c ∷ cs)))) [
    | inr (x, d) ↦ absurd (ground (arith, y, d, e))
    | inl (u, d) ↦
        let both = done-inj (c ∷ cs) p (some u) h (sym (rw (y, d) refl) ∙ e) in
        (y, sym both.0, (u, d, sym both.1))
  ]
]

announce-agrees :
    (v : Sfv) (available : List Text) (t p : Text) (h : Option Text)
    → IsSfv v
    → announce v available t ≡ done (p, h)
    → parse_selected_protocol v (values h) ≡ done p
unfolding announce parse_selected_protocol
announce-agrees v available [] p h k e = let (a, b) = done-inj [] p none h e in rw (← a, ← b) refl
announce-agrees v available (c ∷ cs) p h k e =
    let (y, q, (u, d, g)) = announced v available c cs p h e in
    ap (λ x. parse_selected_protocol v (values x)) g
    ∙ selected_again v u (c ∷ cs) k d
    ∙ ap done (sym q)

negotiate-agrees :
    (v : Sfv) (select : Option (Request → List Text → Result Text)) (r : Request) (p : Text)
    (h : Option Text)
    → IsSfv v
    → negotiate v select r ≡ done (p, h)
    → parse_selected_protocol v (values h) ≡ done p
unfolding negotiate parse_selected_protocol
negotiate-agrees v none r p h k e = let (a, b) = done-inj [] p none h e in rw (← a, ← b) refl
negotiate-agrees v (some select) r p h k e =
    let (available, x, m) =
      bind-done (parse_available_protocols v r.wt_available_protocols)
        (λ a. from_result (select r a) >>= (λ t. announce v a t)) (p, h) e in
    let (t, y, n) =
      bind-done (from_result (select r available)) (λ t. announce v available t) (p, h) m in
    announce-agrees v available t p h k n

module _ {W : Type 0} where
  checked :
      (v : Sfv) (select : Option (Request → List Text → Result Text)) (duplex : Option Error)
      (w : W) (r : Request) (resp : Response) (s : Session W)
      → upgrade v select duplex w r ≡ (resp, done s)
      → (check_request r ≡ none) × ((n : Text × Option Text) × (negotiate v select r ≡ done n))
  unfolding upgrade
  checked v select duplex w r resp s e = elim (Option-cases (check_request r)) [
    | inr (x, d) ↦ absurd (ground (arith, d, e))
    | inl d ↦ elim (Try-cases (negotiate v select r)) [
      | inr (x, m) ↦ absurd (ground (arith, d, m, e))
      | inl (n, m) ↦ (d, (n, m))
    ]
  ]

  reached :
      (v : Sfv) (select : Option (Request → List Text → Result Text)) (duplex : Option Error)
      (w : W) (r : Request) (n : Text × Option Text)
      → check_request r ≡ none
      → negotiate v select r ≡ done n
      → upgrade v select duplex w r ≡ start w r duplex n
  unfolding upgrade
  reached v select duplex w r n d m = rw (d, upgrade, m) refl

  started :
      (w : W) (r : Request) (duplex : Option Error) (n : Text × Option Text) (resp : Response)
      (s : Session W)
      → start w r duplex n ≡ (resp, done s)
      → (duplex ≡ none)
        × (resp ≡ record { wt_protocol = n.1; accepted = true })
        × (s ≡ new_session w n.0 true (peer_limits r.peer_settings))
  started w r none (p, h) resp s e = (refl, cc, cc)
  started w r (some x) (p, h) resp s e = absurd (ground (arith, e))

  -- `Upgrade` returns a session exactly if its guards accept the request, the negotiation gives a protocol
  -- and a header, and full duplex is enabled.
  pub upgrade_negotiated :
      (v : Sfv) (select : Option (Request → List Text → Result Text)) (duplex : Option Error)
      (w : W) (r : Request) (resp : Response) (s : Session W)
      → (upgrade v select duplex w r ≡ (resp, done s)) ↔ (
          (check_request r ≡ none)
          × (duplex ≡ none)
          × ((n : Text × Option Text) × (negotiate v select r ≡ done n)
              × (resp ≡ record { wt_protocol = n.1; accepted = true })
              × (s ≡ new_session w n.0 true (peer_limits r.peer_settings))))
  upgrade_negotiated v select duplex w r resp s = (
    λ e.
        let (d, (n, m)) = checked v select duplex w r resp s e in
        let (f, a, b) = started w r duplex n resp s (sym (reached v select duplex w r n d m) ∙ e) in
        (d, f, (n, m, a, b)),
    λ (d, f, (n, m, a, b)). reached v select duplex w r n d m ∙ rw (f, a, b) refl,
  )

  -- The client that receives the header of a successful `Upgrade` in a response of status 200 has a session
  -- with the server's protocol, whatever the pipe and the peer's SETTINGS are, and has closed nothing.
  pub agreement :
      (v : Sfv) (select : Option (Request → List Text → Result Text)) (w : W) (r : Request)
      (resp : Response) (s : Session W) (pipe : W) (peer : Option WebTransportSettings)
      → IsSfv v
      → upgrade v select none w r ≡ (resp, done s)
      → connected v pipe peer
          (ok (record { status_code = 200; wt_protocol = values resp.wt_protocol }))
        ≡ (
          record { pipe_closed = false; body_closed = false },
          done (new_session pipe s.protocol false (peer_limits peer)),
        )
  unfolding connected new_session
  agreement v select w r resp s pipe peer k e =
      let (d, f, (n, m, a, b)) = (upgrade_negotiated v select none w r resp s).0 e in
      let same : parse_selected_protocol v (values resp.wt_protocol) ≡ done s.protocol =
        ap (λ x. parse_selected_protocol v (values x.wt_protocol)) a
        ∙ negotiate-agrees v select r n.0 n.1 k m
        ∙ ap done (sym (ap (λ x. x.protocol) b)) in
      rw same refl

  -- What the client does with the response: it returns a session and closes nothing, or it returns an error
  -- and has closed the pipe, and the body where there was a response.
  connected_cases :
      (v : Sfv) (pipe : W) (peer : Option WebTransportSettings) (res : Result HttpResponse)
      → ((s : Session W) × (connected v pipe peer res
            ≡ (record { pipe_closed = false; body_closed = false }, done s)))
        ⊎ ((e : ConnectError) × (connected v pipe peer res
              ≡ (record { pipe_closed = true; body_closed = is_response res }, failed e)))
  unfolding connected
  connected_cases v pipe peer (err e) = inr (connection_failed e, refl)
  connected_cases v pipe peer (ok res) =
      elim (Bool-cases (ltb res.status_code 200 || leb 300 res.status_code)) [
        | inl y ↦ inr (refused res.status_code, rw (y, connected) refl)
        | inr n ↦ elim (Try-cases (parse_selected_protocol v res.wt_protocol)) [
          | inl (p, d) ↦
              inl (new_session pipe p false (peer_limits peer), rw (n, connected, d) refl)
          | inr (x, d) ↦ inr (x, rw (n, connected, d) refl)
        ]
      ]

-- A new session on a connection whose peer sent its SETTINGS starts with exactly the limits that they
-- hold, in force.
pub advertised_limits :
    {W : Type 0} (w : W) (protocol : Text) (is_server : Bool) (s : WebTransportSettings)
    → let known = apply_all (settings (some s)) no_settings in
      let l =
        (new_session w protocol is_server
          (peer_limits (get (store known no_capture)))).endpoint.limits in
      (l.active ≡ true)
      × (l.max_data ≡ s.initial_max_data)
      × (l.max_streams_uni ≡ s.initial_max_streams_uni)
      × (l.max_streams_bidi ≡ s.initial_max_streams_bidi)
      × (l.stream_data_uni ≡ s.initial_max_stream_data_uni)
      × (l.stream_data_bidi_local ≡ s.initial_max_stream_data_bidi_local)
      × (l.stream_data_bidi_remote ≡ s.initial_max_stream_data_bidi_remote)
unfolding new_session adopt_peer_send_limits peer_limits_from_settings get store
advertised_limits w protocol is_server s =
    rw (apply_all-settings s no_settings) (refl, refl, refl, refl, refl, refl, refl)
