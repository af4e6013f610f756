-- ===== src/Commands/Queries.antt =====
-- cmd/devious-baton/main.go: the parameters that the two sides of a session start with.
use webtransport_h2_go.Prelude.{
  ℕ, ◌≡◌, ◌<◌, ◌^◌, refl, sym, ap, ◌∙◌, inl, inr, arith, true, false, not, ◌&&◌, [], ◌∷◌, eq_text,
  eq_text_iff, if◌then◌else◌, ℤ, pos, negsuc, is_positive, itoa, Bool-cases,
}
use webtransport_h2_go.Fallible.{done}
use webtransport_h2_go.Session.State.{Session}
use webtransport_h2_go.Handshake.{Text}
use webtransport_h2_go.Baton.Config.{
  Config, Values, get_value, set_value, parse_query, query, version_key, baton_key, count_key,
}
use webtransport_h2_go.Baton.Query.{parse_query-query}
use webtransport_h2_go.Baton.Run.{start_run}
use webtransport_h2_go.Commands.BatonCommand.{
  is_empty, is_zero, set_missing, client_query, client_config, with_padding, selftest_handler,
  selftest_config,
}

same_key : (k a b : Text) → eq_text a b ≡ true → eq_text k b ≡ eq_text k a
same_key k a b e = ap (eq_text k) (sym ((eq_text_iff a b).0 e))

other_key : (k a b : Text) → eq_text a b ≡ false → eq_text k b ≡ true → eq_text k a ≡ false
other_key k a b n h = elim (Bool-cases (eq_text k a)) [
  | inl y ↦ absurd (ground (arith, n, sym (ap (λ x. eq_text x b) ((eq_text_iff k a).0 y)) ∙ h))
  | inr z ↦ z
]

get-set :
    (k a v : Text) (q : Values)
    → get_value k (set_value a v q) ≡ (if eq_text k a then v else get_value k q)
unfolding get_value set_value
get-set k a v [] = refl
get-set k a v ((key, vs) ∷ rest) = elim (Bool-cases (eq_text a key)) [
  | inl y ↦ rw (y, set_value, get_value, same_key k a key y) (ground arith)
  | inr n ↦ elim (Bool-cases (eq_text k key)) [
    | inl h ↦ rw (n, set_value, h, other_key k a key n h) refl
    | inr h ↦ rw (n, set_value, h) (get-set k a v rest)
  ]
]

-- The text that a command passes for a parameter: the URL's where it has one, else the flag's where it is
-- not zero, else none.
abbrev chosen : ℤ → Text → Text
chosen n (c ∷ cs) = c ∷ cs
chosen n [] = if is_zero n then [] else itoa n

chosen_flag : (n : ℤ) (v : Text) → is_empty v && not (is_zero n) ≡ true → chosen n v ≡ itoa n
chosen_flag n [] e = ground (arith, e)
chosen_flag n (c ∷ cs) e = ground (arith, e)

chosen_given : (n : ℤ) (v : Text) → is_empty v && not (is_zero n) ≡ false → chosen n v ≡ v
chosen_given n [] e = ground (arith, e)
chosen_given n (c ∷ cs) e = refl

-- A parameter that is not empty was not changed by the flag of another.
get-set_missing :
    (k a : Text) (n : ℤ) (q : Values)
    → get_value k (set_missing a n q)
      ≡ (if eq_text k a then chosen n (get_value a q) else get_value k q)
unfolding set_missing
get-set_missing k a n q = elim (Bool-cases (is_empty (get_value a q) && not (is_zero n))) [
  | inl y ↦ rw (y, chosen_flag n (get_value a q) y) (get-set k a (itoa n) q)
  | inr z ↦ elim (Bool-cases (eq_text k a)) [
    | inl h ↦
        rw (z, h, chosen_given n (get_value a q) z)
          (ap (λ x. get_value x q) ((eq_text_iff k a).0 h))
    | inr h ↦ rw (z, h) refl
  ]
]

-- What `url.Values.Encode` and the parsing of a URL's query keep.
abbrev pub Keeps : (Values → Values) → Type 0
Keeps reencode = (k : Text) (q : Values) → get_value k (reencode q) ≡ get_value k q

client_values :
    (reencode : Values → Values) (baton count : ℤ) (q : Values)
    → Keeps reencode
    → (get_value version_key (client_query reencode baton count q) ≡ get_value version_key q)
      × (get_value baton_key (client_query reencode baton count q)
          ≡ chosen baton (get_value baton_key q))
      × (get_value count_key (client_query reencode baton count q)
          ≡ chosen count (get_value count_key q))
unfolding client_query eq_text
client_values reencode baton count q k =
    let p = set_missing baton_key baton q in
    (
      k version_key _
          ∙ get-set_missing version_key count_key count p
          ∙ get-set_missing version_key baton_key baton q,
      k baton_key _
          ∙ get-set_missing baton_key count_key count p
          ∙ get-set_missing baton_key baton_key baton q,
      k count_key _
          ∙ get-set_missing count_key count_key count p
          ∙ ap (chosen count) (get-set_missing count_key baton_key baton q),
    )

-- The query with one value for each parameter.
abbrev query_of : Text → Text → Text → Values
query_of v b c = (version_key, v ∷ []) ∷ (baton_key, b ∷ []) ∷ (count_key, c ∷ []) ∷ []

-- If the URL's query is read as it was written, `client` starts with what ParseQuery makes of the query
-- that has the URL's version, and the URL's baton and count where it has them and else those of the flags
-- that are not zero; the padding is the flag's. Where ParseQuery returns an error, so does the command.
client_config_values :
    (reencode : Values → Values) (baton count padding : ℤ) (q : Values)
    → Keeps reencode
    → client_config reencode baton count padding q
      ≡ with_padding padding (
          parse_query (
            query_of
              (get_value version_key q)
              (chosen baton (get_value baton_key q))
              (chosen count (get_value count_key q))))
unfolding client_config parse_query get_value eq_text
client_config_values reencode baton count padding q k =
    let (v, b, c) = client_values reencode baton count q k in rw (v, b, c) refl

parse-reencoded :
    (reencode : Values → Values) (q : Values)
    → Keeps reencode
    → parse_query (reencode q) ≡ parse_query q
unfolding parse_query
parse-reencoded reencode q k = rw (k version_key q, k baton_key q, k count_key q) refl

accepted_config :
    (baton padding : ℤ) (n : ℕ) (cfg : Config)
    → selftest_config baton (pos n) padding ≡ done cfg
    → (cfg.version ≡ pos 0)
      × (cfg.baton < 256)
      × (cfg.count ≡ pos n)
      × (is_positive (pos n) ≡ true)
      × (cfg.padding ≡ padding)
unfolding selftest_config
accepted_config (pos b) padding n cfg e = ground (arith, e)
accepted_config (negsuc b) padding n cfg e = ground (arith, e)

module _ {W : Type 0} where
  -- If the URL's query is read as it was written and its host takes the request, the server of `selftest`
  -- starts with exactly the parameters that its client has, the padding included.
  pub selftest_agrees :
      (reencode : Values → Values) (baton padding : ℤ) (n : ℕ) (cfg : Config) (s : Session W)
      → Keeps reencode
      → n < 2 ^ 63
      → selftest_config baton (pos n) padding ≡ done cfg
      → selftest_handler padding (reencode (query cfg)) (done s) ≡ done (start_run s true cfg)
  unfolding selftest_handler
  selftest_agrees reencode baton padding n cfg s k h e =
      let (v, b, c, p, d) = accepted_config baton padding n cfg e in
      rw
        (
          parse-reencoded reencode (query cfg) k,
          parse_query-query cfg n v c (ground (arith, p)) h b,
        )
        (ap (λ x. done (start_run s true (record cfg { padding = x }))) (sym d))
