-- ===== src/Client/Tests/Network.antt =====
-- A Fetch over a new pool whose connection reads one message.
use tradingview_go.Common.{ℕ, ◌≡◌, refl, false, none, some, [], ◌∷◌, ℤ, pos}
use tradingview_go.Text.{codes, beq, to_upper, trim_space}
use tradingview_go.Types.{ChartData}
use tradingview_go.Errors.{ok}
use tradingview_go.Config.{default_config, with_defaults}
use tradingview_go.Symbols.{normalize_symbol, normalize_resolution, to_wire, lookup, member}
use tradingview_go.Pool.{new_pool, take_free, split_last}
use tradingview_go.Conn.{got, returns}
use tradingview_go.Conn.Answers.{AnyOf, EventBrings}
use tradingview_go.Conn.Tests.{candle, outside, data_message, answered}
use tradingview_go.Client.{
  Request, Env, new_client, acquire, fetch, fetch_checked, fetch_once, check,
}
use tradingview_go.Client.Checks.{IsNormal}
use tradingview_go.Client.Origin
use tradingview_go.Client.Origin.{Network, Session, Follows, series_on}

abbrev session : Session ℤ
session = record {
  out = outside;
  chart_id = codes "cs_1";
  series_id = codes "sds_1";
  events = got data_message ∷ [];
  sent = [];
}

abbrev network : Network ℤ
network = record {
  waited = none;
  dialed = ok 1;
  now = 5;
  pool = new_pool 9;
  session = λ conn. session;
}

abbrev env : Env ℤ
env = record {
  at_get = 10;
  start = 11;
  fetched = 12;
  done = 13;
  at_put = 14;
  network = λ q. ok (candle ∷ []);
}

follows : Follows env network (λ conn q. ok (candle ∷ []))
unfolding fetch_once acquire take_free new_pool split_last
follows = record {
  network = λ q. refl;
  series_is = λ conn q. answered q.symbol q.resolution q.bars;
}

abbrev chart : ChartData ℤ
chart = record {
  symbol = codes "AAPL";
  resolution = codes "60";
  candles = candle ∷ [];
  fetched_at = 12;
  cached = false;
  latency_ms = 0;
}

fetched : (fetch (new_client default_config) (codes " aapl") (codes "1h") (pos 0) env).0 ≡ ok chart
unfolding new_client with_defaults fetch fetch_checked check normalize_symbol normalize_resolution
    to_upper trim_space to_wire lookup member beq
fetched = refl

fetch-Brings_example :
    (q : Request) × (conn : ℕ) × IsNormal q
    × (q.symbol ≡ normalize_symbol (codes " aapl"))
    × (normalize_resolution (codes "1h") ≡ some q.resolution)
    × (chart.symbol ≡ q.symbol)
    × (chart.resolution ≡ q.resolution)
    × (series_on session q ≡ returns (ok (candle ∷ [])))
    × AnyOf (EventBrings outside (candle ∷ [])) (got data_message ∷ [])
unfolding new_pool
fetch-Brings_example =
    Origin.fetch-Brings (new_client default_config) (codes " aapl") (codes "1h") (pos 0) env network
      (λ conn q. ok (candle ∷ [])) follows refl fetched refl
