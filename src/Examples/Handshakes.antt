-- ===== src/Examples/Handshakes.antt =====
-- A client and a server that agree on a protocol, over an encoding of items with marks: 0 before a
-- string, 1 before another value, and every character two higher.
use webtransport_h2_go.Prelude.{
  ℕ, zero, suc, ◌≡◌, ◌≢◌, ◌↔◌, refl, ap, sym, ◌∙◌, arith, true, false, List, [], ◌∷◌, Option, none,
  some, codes, eq_text, if◌then◌else◌,
}
use webtransport_h2_go.Errors.{Error, Result, ok, err, eof}
use webtransport_h2_go.Fallible.{done}
use webtransport_h2_go.Settings.{
  no_capture, store, get, settings, apply_all, default_settings, no_settings,
}
use webtransport_h2_go.Settings.Exchanged.{apply_all-settings}
use webtransport_h2_go.Session.State.{Session, new_session}
use webtransport_h2_go.Handshake.{Text, Item, string, other_value, Sfv, IsSfv, peer_limits}
use webtransport_h2_go.Handshake.Server.{
  Request, Response, upgrade, negotiate, check_request, announce, parse_available_protocols,
  append_strings, contains_text, first,
}
use webtransport_h2_go.Handshake.Client.{offer, encode_available_protocols, connected}
use webtransport_h2_go.Handshake.Agreement.{agreement, advertised_limits, values}
use webtransport_h2_go.Handshake.Upgraded.{IsAgreed, upgrade_iff}
use webtransport_h2_go.Handshake.Offered.{offered_blanks}
use webtransport_h2_go.Examples.Sessions.{Log}

unfoldable pub shifted : Text → List ℕ → List ℕ
shifted [] rest = rest
shifted (c ∷ cs) rest = suc (suc c) ∷ shifted cs rest

unfoldable pub marked : Item → List ℕ → List ℕ
marked (string t) rest = 0 ∷ shifted t rest
marked (other_value t) rest = 1 ∷ shifted t rest

unfoldable pub all_marked : List Item → List ℕ
all_marked [] = []
all_marked (i ∷ items) = marked i (all_marked items)

-- The characters before the first mark, and the items.
unfoldable pub unmarked : List ℕ → Text × List Item
unmarked [] = ([], [])
unmarked (zero ∷ rest) = let (t, items) = unmarked rest in ([], string t ∷ items)
unmarked (suc zero ∷ rest) = let (t, items) = unmarked rest in ([], other_value t ∷ items)
unmarked (suc (suc c) ∷ rest) = let (t, items) = unmarked rest in (c ∷ t, items)

unmarked-shifted :
    (t rest : List ℕ) → (unmarked rest).0 ≡ [] → unmarked (shifted t rest) ≡ (t, (unmarked rest).1)
unfolding unmarked shifted
unmarked-shifted [] rest h = ap (λ x. (x, (unmarked rest).1)) h
unmarked-shifted (c ∷ cs) rest h = ap (λ r. (c ∷ r.0, r.1)) (unmarked-shifted cs rest h)

unmarked-all_marked : (items : List Item) → unmarked (all_marked items) ≡ ([], items)
unfolding unmarked all_marked marked
unmarked-all_marked [] = refl
unmarked-all_marked (string t ∷ items) =
    let e = unmarked-all_marked items in
    ap (λ r. ([], string r.0 ∷ r.1))
      (unmarked-shifted t (all_marked items) (ap (λ r. r.0) e) ∙ ap (λ r. (t, r.1)) e)
unmarked-all_marked (other_value t ∷ items) =
    let e = unmarked-all_marked items in
    ap (λ r. ([], other_value r.0 ∷ r.1))
      (unmarked-shifted t (all_marked items) (ap (λ r. r.0) e) ∙ ap (λ r. (t, r.1)) e)

abbrev pub decode_one : List Item → Result Item
decode_one (i ∷ []) = ok i
decode_one _ = err eof

abbrev pub one_line : List Text → Text
one_line [] = []
one_line (t ∷ ts) = t

abbrev pub marks : Sfv
marks = record {
  encode_item = λ i. ok (all_marked (i ∷ []));
  decode_item = λ h. decode_one (unmarked (one_line h)).1;
  encode_list = λ items. ok (all_marked items);
  decode_list = λ h. ok (unmarked (one_line h)).1;
}

ok-inj : {A : Type 0} (a b : A) → Path (Result A) (ok a) (ok b) → a ≡ b
ok-inj a b e = cc

item_marked : (i : Item) → all_marked (i ∷ []) ≢ []
unfolding all_marked marked
item_marked (string t) e = ground (arith, e)
item_marked (other_value t) e = ground (arith, e)

pub marks-IsSfv : IsSfv marks
marks-IsSfv = record {
  item_again = λ i t e.
      ap (λ x. decode_one (unmarked x).1) (sym (ok-inj (all_marked (i ∷ [])) t e))
      ∙ ap (λ r. decode_one r.1) (unmarked-all_marked (i ∷ []));
  item_filled = λ i e. item_marked i (ok-inj (all_marked (i ∷ [])) [] e);
  list_again = λ items t e.
      ap (λ x. ok (unmarked x).1) (sym (ok-inj (all_marked items) t e))
      ∙ ap (λ r. ok r.1) (unmarked-all_marked items);
}

abbrev pub echo_text : Text
echo_text = codes "echo"

-- `SelectProtocol` of the echo endpoint.
abbrev select_echo : Request → List Text → Result Text
select_echo r available = ok (if contains_text available echo_text then echo_text else [])

abbrev pub request : Request
request = record {
  method = codes "CONNECT";
  proto = codes "HTTP/2.0";
  protocol_values = codes "webtransport" ∷ [];
  wt_available_protocols = all_marked (string echo_text ∷ []) ∷ [];
  peer_settings = some default_settings;
}

abbrev response : Response
response = record { wt_protocol = some (all_marked (string echo_text ∷ [])); accepted = true }

abbrev echo_session : Session Log
echo_session = new_session [] echo_text true (peer_limits (some default_settings))

upgraded_here : upgrade marks (some select_echo) none [] request ≡ (response, done echo_session)
unfolding upgrade check_request eq_text negotiate announce parse_available_protocols append_strings
    contains_text all_marked marked shifted unmarked
upgraded_here = refl

agreement_example :
    connected {W = Log} marks [] none
      (ok (record { status_code = 200; wt_protocol = values response.wt_protocol }))
    ≡ (
      record { pipe_closed = false; body_closed = false },
      done (new_session {W = Log} [] echo_text false none),
    )
unfolding new_session
agreement_example =
    agreement marks (some select_echo) [] request response echo_session [] none marks-IsSfv
      upgraded_here

upgrade_iff_example :
    (upgrade marks (some select_echo) none [] request ≡ (response, done echo_session)) ↔ (
      (request.method ≡ codes "CONNECT")
      × (request.proto ≡ codes "HTTP/2.0")
      × (first request.protocol_values ≡ codes "webtransport")
      × (Path (Option Error) none none)
      × ((p : Text) × (h : Option Text) × IsAgreed marks (some select_echo) request p h
          × (response ≡ record { wt_protocol = h; accepted = true })
          × (echo_session ≡ new_session [] p true (peer_limits (some default_settings)))))
upgrade_iff_example = upgrade_iff marks (some select_echo) none [] request response echo_session

offered_blanks_example :
    parse_available_protocols marks (all_marked (string echo_text ∷ []) ∷ [])
    ≡ done ([] ∷ echo_text ∷ [])
unfolding offer encode_available_protocols
offered_blanks_example =
    offered_blanks marks echo_text [] (all_marked (string echo_text ∷ [])) marks-IsSfv refl

advertised_limits_example :
    (new_session {W = Log} [] [] true (
      peer_limits (
        get (
          store
            (apply_all (settings (some default_settings)) no_settings)
            no_capture)))).endpoint.limits.active
    ≡ true
advertised_limits_example = (advertised_limits {W = Log} [] [] true default_settings).0

apply_all-settings_example :
    apply_all (settings (some default_settings)) no_settings
    ≡ record default_settings { enabled = true }
unfolding default_settings
apply_all-settings_example = apply_all-settings default_settings no_settings
