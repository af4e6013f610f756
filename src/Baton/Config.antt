-- ===== src/Baton/Config.antt =====
-- internal/baton/config.go: the parameters of a session in the URL's query. `url.Values` maps a key
-- to its values; `Get` is the first of them, and empty without one.
use webtransport_h2_go.Prelude.{
  eq_text, ℕ, ◌||◌, Bool, true, List, [], ◌∷◌, none, some, ltb, ◌==◌, if◌then◌else◌, ℤ, pos, negsuc,
  is_negative, is_positive, pos_part, codes, atoi, itoa,
}
use webtransport_h2_go.Fallible.{Try, done, failed, ◌>>=◌}

abbrev pub Values : Type 0
Values = List (List ℕ × List (List ℕ))

abbrev first : List (List ℕ) → List ℕ
first [] = []
first (v ∷ vs) = v

unfoldable pub get_value : List ℕ → Values → List ℕ
get_value k [] = []
get_value k ((key, vs) ∷ rest) = if eq_text k key then first vs else get_value k rest

unfoldable pub set_value : List ℕ → List ℕ → Values → Values
set_value k v [] = (k, v ∷ []) ∷ []
set_value k v ((key, vs) ∷ rest) =
    if eq_text k key then (k, v ∷ []) ∷ rest else (key, vs) ∷ set_value k v rest

pub record Config : Type 0 where
  pub version : ℤ
  pub baton : ℕ
  pub count : ℤ
  pub padding : ℤ

unfoldable pub default_config : Config
default_config = record { version = pos 0; baton = 0; count = pos 1; padding = pos 0 }

pub data ConfigError : Type 0 where
  invalid_version invalid_baton invalid_count : List ℕ → ConfigError
  unsupported_version : ℤ → ConfigError

abbrev pub version_key : List ℕ
version_key = codes "version"

abbrev pub baton_key : List ℕ
baton_key = codes "baton"

abbrev pub count_key : List ℕ
count_key = codes "count"

-- `n < 1 || n > 255`
abbrev pub not_in_byte : ℤ → Bool
not_in_byte (pos n) = ltb n 1 || ltb 255 n
not_in_byte (negsuc n) = true

-- The three parts of `ParseQuery`: each leaves the default where the value is empty.
unfoldable pub parse_version : List ℕ → Config → Try ConfigError Config
parse_version [] cfg = done cfg
parse_version v cfg = elim (atoi v) [
  | none ↦ failed (invalid_version v)
  | some n ↦
      if is_negative n
      then failed (invalid_version v)
      else if is_positive n
      then failed (unsupported_version n)
      else done (record cfg { version = n })
]

unfoldable pub parse_baton : List ℕ → Config → Try ConfigError Config
parse_baton [] cfg = done cfg
parse_baton v cfg = elim (atoi v) [
  | none ↦ failed (invalid_baton v)
  | some n ↦
      if not_in_byte n then failed (invalid_baton v) else done (record cfg { baton = pos_part n })
]

unfoldable pub parse_count : List ℕ → Config → Try ConfigError Config
parse_count [] cfg = done cfg
parse_count v cfg = elim (atoi v) [
  | none ↦ failed (invalid_count v)
  | some n ↦ if is_positive n then done (record cfg { count = n }) else failed (invalid_count v)
]

-- The `Config` that comes with an error is not used.
unfoldable pub parse_query : Values → Try ConfigError Config
parse_query q = do
  c ← parse_version (get_value version_key q) default_config
  d ← parse_baton (get_value baton_key q) c
  parse_count (get_value count_key q) d

-- `Config.Query`
unfoldable pub query : Config → Values
query c =
    let q = set_value count_key (itoa c.count) (set_value version_key (itoa c.version) []) in
    if c.baton == 0 then q else set_value baton_key (itoa (pos c.baton)) q
