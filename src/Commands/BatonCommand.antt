-- ===== src/Commands/BatonCommand.antt =====
-- cmd/devious-baton/main.go: `client` and `selftest` up to the first wait of `Run`, and what `selftest`
-- returns. `reencode` is `url.Values.Encode` and then the parsing of the URL's query.
use webtransport_h2_go.Prelude.{
  Bool, true, false, not, ◌&&◌, [], ◌∷◌, Option, none, some, ◌==◌, if◌then◌else◌, ℤ, pos, negsuc,
  is_positive, pos_part, itoa,
}
use webtransport_h2_go.Errors.{Error, Result, ok, err}
use webtransport_h2_go.Fallible.{Try, done, failed}
use webtransport_h2_go.Session.State.{Session}
use webtransport_h2_go.Handshake.{Text}
use webtransport_h2_go.Handshake.Server.{UpgradeError}
use webtransport_h2_go.Handshake.Client.{ConnectError}
use webtransport_h2_go.Baton.Config.{
  Config, ConfigError, Values, get_value, set_value, parse_query, baton_key, count_key, not_in_byte,
}
use webtransport_h2_go.Baton.Exchange.{BatonError}
use webtransport_h2_go.Baton.Run.{BatonRun, start_run, HandlerError, bad_query, on_upgraded}

pub data CommandError : Type 0 where
  url_required baton_range count_range : CommandError
  bad_url : Error → CommandError
  bad_parameters : ConfigError → CommandError
  not_connected : ConnectError → CommandError
  client_failed server_failed : BatonError → CommandError
  timed_out : Error → CommandError

abbrev pub is_empty : Text → Bool
is_empty [] = true
is_empty (c ∷ cs) = false

abbrev pub is_zero : ℤ → Bool
is_zero (pos n) = n == 0
is_zero (negsuc n) = false

-- A flag that is not zero is set where the query has no value.
unfoldable pub set_missing : Text → ℤ → Values → Values
set_missing key n q =
    if is_empty (get_value key q) && not (is_zero n) then set_value key (itoa n) q else q

-- The query of the URL that `cmdClient` connects to.
unfoldable pub client_query : (Values → Values) → ℤ → ℤ → Values → Values
client_query reencode baton count q =
    reencode (set_missing count_key count (set_missing baton_key baton q))

abbrev pub with_padding : ℤ → Try ConfigError Config → Try ConfigError Config
with_padding padding (failed e) = failed e
with_padding padding (done cfg) = done (record cfg { padding = padding })

unfoldable pub client_config : (Values → Values) → ℤ → ℤ → ℤ → Values → Try ConfigError Config
client_config reencode baton count padding q =
    with_padding padding (parse_query (client_query reencode baton count q))

module _ {W : Type 0} where
  abbrev on_dialled : Config → Try ConnectError (Session W) → Try CommandError (BatonRun W)
  on_dialled cfg (failed e) = failed (not_connected e)
  on_dialled cfg (done s) = done (start_run s false cfg)

  abbrev on_parsed :
      (Values → Values)
      → ℤ
      → ℤ
      → ℤ
      → (Values → Try ConnectError (Session W))
      → Result Values
      → Try CommandError (BatonRun W)
  on_parsed reencode baton count padding dial (err e) = failed (bad_url e)
  on_parsed reencode baton count padding dial (ok q) =
      elim (client_config reencode baton count padding q) [
        | failed e ↦ failed (bad_parameters e)
        | done cfg ↦ on_dialled cfg (dial (client_query reencode baton count q))
      ]

  -- `cmdClient`, with what `url.Parse` makes of the URL; `dial` takes the query.
  unfoldable pub cmd_client :
      (Values → Values)
      → (Values → Try ConnectError (Session W))
      → Text
      → Result Values
      → ℤ
      → ℤ
      → ℤ
      → Try CommandError (BatonRun W)
  cmd_client reencode dial raw_url parsed baton count padding =
      if is_empty raw_url
      then failed url_required
      else on_parsed reencode baton count padding dial parsed

  abbrev pub on_query :
      Try UpgradeError (Session W) → Try ConfigError Config → Try HandlerError (BatonRun W)
  on_query upgraded (failed e) = failed (bad_query e)
  on_query upgraded (done cfg) = on_upgraded cfg upgraded

  -- The handler that `cmdSelftest` registers, with what `Upgrade` returns.
  unfoldable pub selftest_handler :
      ℤ → Values → Try UpgradeError (Session W) → Try HandlerError (BatonRun W)
  selftest_handler padding q upgraded = on_query upgraded (with_padding padding (parse_query q))

-- The guards of `cmdSelftest`, and its `Config`.
unfoldable pub selftest_config : ℤ → ℤ → ℤ → Try CommandError Config
selftest_config baton count padding =
    if not_in_byte baton
    then failed baton_range
    else if not (is_positive count)
    then failed count_range
    else done (record { version = pos 0; baton = pos_part baton; count = count; padding = padding })

-- What the `select` of `cmdSelftest` comes to: one side has returned, and then the other, or the context
-- ended first.
pub data SelftestEnd : Type 0 where
  both_returned : Option BatonError → Option BatonError → SelftestEnd
  context_ended : Error → SelftestEnd

unfoldable pub selftest_result : SelftestEnd → Option CommandError
selftest_result (both_returned (some c) s) = some (client_failed c)
selftest_result (both_returned none (some s)) = some (server_failed s)
selftest_result (both_returned none none) = none
selftest_result (context_ended e) = some (timed_out e)
