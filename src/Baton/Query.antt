-- ===== src/Baton/Query.antt =====
-- The round trip of config.go over the URL's query, and what an accepted query says.
use webtransport_h2_go.Prelude.{
  eq_text, ℕ, ◌≡◌, ◌<◌, ◌≤◌, ◌^◌, inl, inr, refl, sym, ◌∙◌, ap, arith, true, List, [], ◌∷◌, some,
  ◌==◌, if◌then◌else◌, pos, is_positive, atoi, itoa, atoi-itoa, itoa-head, Bool-cases,
}
use webtransport_h2_go.Fallible.{Try, done, failed, ◌>>=◌}
use webtransport_h2_go.Baton.Config.{
  Config, ConfigError, Values, get_value, set_value, default_config, parse_version, parse_baton,
  parse_count, parse_query, query, version_key, baton_key, count_key,
}

-- The three values of a query that `Query` builds.
query_values :
    (c : Config)
    → (get_value version_key (query c) ≡ itoa c.version)
      × (get_value count_key (query c) ≡ itoa c.count)
      × (get_value baton_key (query c) ≡ (if c.baton == 0 then [] else itoa (pos c.baton)))
unfolding query get_value set_value eq_text
query_values c = elim (Bool-cases (c.baton == 0)) [
  | inl z ↦ rw (z) (refl, refl, refl)
  | inr z ↦ rw (z) (refl, refl, refl)
]

version_read :
    (n c : ℕ) (cs : List ℕ) (cfg : Config)
    → atoi (c ∷ cs) ≡ some (pos n)
    → n ≡ 0
    → parse_version (c ∷ cs) cfg ≡ done (record cfg { version = pos n })
unfolding parse_version
version_read n c cs cfg e h = rw (e, parse_version) (ground arith)

version_written :
    (n : ℕ) (cfg : Config)
    → n ≡ 0
    → parse_version (itoa (pos n)) cfg ≡ done (record cfg { version = pos n })
version_written n cfg h =
    let (c, cs, e) = itoa-head n in
    ap (λ v. parse_version v cfg) e
    ∙ version_read n c cs cfg (ap atoi (sym e) ∙ atoi-itoa n (omega (arith, h))) h

baton_read :
    (n c : ℕ) (cs : List ℕ) (cfg : Config)
    → atoi (c ∷ cs) ≡ some (pos n)
    → 1 ≤ n
    → n < 256
    → parse_baton (c ∷ cs) cfg ≡ done (record cfg { baton = n })
unfolding parse_baton
baton_read n c cs cfg e h k = rw (e, parse_baton) (ground arith)

baton_written :
    (n : ℕ) (cfg : Config)
    → 1 ≤ n
    → n < 256
    → parse_baton (itoa (pos n)) cfg ≡ done (record cfg { baton = n })
baton_written n cfg h k =
    let (c, cs, e) = itoa-head n in
    ap (λ v. parse_baton v cfg) e
    ∙ baton_read n c cs cfg (ap atoi (sym e) ∙ atoi-itoa n (omega (arith, k))) h k

count_read :
    (n c : ℕ) (cs : List ℕ) (cfg : Config)
    → atoi (c ∷ cs) ≡ some (pos n)
    → 1 ≤ n
    → parse_count (c ∷ cs) cfg ≡ done (record cfg { count = pos n })
unfolding parse_count
count_read n c cs cfg e h = rw (e, parse_count) (ground arith)

count_written :
    (n : ℕ) (cfg : Config)
    → 1 ≤ n
    → n < 2 ^ 63
    → parse_count (itoa (pos n)) cfg ≡ done (record cfg { count = pos n })
count_written n cfg h k =
    let (c, cs, e) = itoa-head n in
    ap (λ v. parse_count v cfg) e ∙ count_read n c cs cfg (ap atoi (sym e) ∙ atoi-itoa n k) h

baton_of :
    (b : ℕ) (cfg : Config)
    → b < 256
    → cfg.baton ≡ 0
    → parse_baton (if b == 0 then [] else itoa (pos b)) cfg ≡ done (record cfg { baton = b })
unfolding parse_baton
baton_of b cfg k z = elim (Bool-cases (b == 0)) [
  | inl y ↦ rw y (ground arith)
  | inr y ↦ rw y (baton_written b cfg (ground arith) k)
]

-- The query that a client puts on the URL, for version 0 and a count of at least 1, is read back to the
-- same parameters, but for the padding, which is not sent.
pub parse_query-query :
    (c : Config) (n : ℕ)
    → c.version ≡ pos 0
    → c.count ≡ pos n
    → 1 ≤ n
    → n < 2 ^ 63
    → c.baton < 256
    → parse_query (query c) ≡ done (record c { padding = pos 0 })
unfolding parse_query default_config
parse_query-query c n v k h l b =
    let (ev, ec, eb) = query_values c in
    rw (ev, ec, eb, v, k, version_written 0 default_config refl)
      (rw (baton_of c.baton default_config b refl) (count_written n _ h l))

bind-done :
    {A B : Type 0} (m : Try ConfigError A) (f : A → Try ConfigError B) (b : B)
    → m >>= f ≡ done b
    → (a : A) × (m ≡ done a) × (f a ≡ done b)
bind-done (done a) f b e = (a, refl, e)
bind-done (failed x) f b e = ground (arith, e)

version_range :
    (v : List ℕ) (cfg c : Config)
    → parse_version v cfg ≡ done c
    → cfg.version ≡ pos 0
    → (c.version ≡ pos 0)
      × (c.baton ≡ cfg.baton)
      × (c.count ≡ cfg.count)
      × (c.padding ≡ cfg.padding)
unfolding parse_version
version_range [] cfg c e h = ground arith
version_range (x ∷ v) cfg c e h = ground arith

baton_range :
    (v : List ℕ) (cfg c : Config)
    → parse_baton v cfg ≡ done c
    → cfg.baton < 256
    → (c.baton < 256)
      × (c.version ≡ cfg.version)
      × (c.count ≡ cfg.count)
      × (c.padding ≡ cfg.padding)
unfolding parse_baton
baton_range [] cfg c e h = ground arith
baton_range (x ∷ v) cfg c e h = ground arith

count_range :
    (v : List ℕ) (cfg c : Config)
    → parse_count v cfg ≡ done c
    → is_positive cfg.count ≡ true
    → (is_positive c.count ≡ true)
      × (c.version ≡ cfg.version)
      × (c.baton ≡ cfg.baton)
      × (c.padding ≡ cfg.padding)
unfolding parse_count
count_range [] cfg c e h = ground arith
count_range (x ∷ v) cfg c e h = ground arith

-- An accepted query has version 0, a baton of one byte, where 0 stands for none, and a count of at
-- least 1; the padding is the default.
parse_query_range :
    (q : Values) (c : Config)
    → parse_query q ≡ done c
    → (c.version ≡ pos 0) × (c.baton < 256) × (is_positive c.count ≡ true) × (c.padding ≡ pos 0)
unfolding parse_query default_config
parse_query_range q c e =
    let (a, ea, ka) =
      bind-done (parse_version (get_value version_key q) default_config)
        (λ x.
          parse_baton (get_value baton_key q) x >>= (λ d. parse_count (get_value count_key q) d))
        c e in
    let (b, eb, kb) =
      bind-done (parse_baton (get_value baton_key q) a) (λ d. parse_count (get_value count_key q) d)
        c ka in
    let (v, w, x, p) = version_range _ default_config a ea refl in
    let (d, f, g, h) = baton_range _ a b eb (omega (arith, w)) in
    let (k, l, m, n) = count_range _ b c kb (ap is_positive (g ∙ x)) in
    (l ∙ f ∙ v, rw m d, k, n ∙ h ∙ p)
