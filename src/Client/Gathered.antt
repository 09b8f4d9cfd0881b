-- ===== src/Client/Gathered.antt =====
-- FetchMulti over its goroutines' Fetch calls: where its data is from.
use mathlib.Core.Path.{subst, ap₂}
use tradingview_go.Common.{ℕ, ◌≡◌, sym, ap, ◌∙◌, inl, inr, true, some, List, [], ◌∷◌, ℤ, All}
use tradingview_go.Text.{Bytes}
use tradingview_go.Types.{ChartData, MultiChartData}
use tradingview_go.Errors.{Result, ok}
use tradingview_go.Config.{Config, with_defaults}
use tradingview_go.Symbols.{lookup, member, normalize_symbol, normalize_resolution}
use tradingview_go.Client.{Client, Request, Env, new_client, check, fetch, fetch_multi}
use tradingview_go.Client.Checks.{check-IsNormal}
use tradingview_go.Client.History.{Section, HasPassed, after}
use tradingview_go.Client.Multi.{Ended}
use tradingview_go.Client.Sources.{From, Among, fetch-From}
use tradingview_go.Client.Maps.{fetch_multi-maps}

module _ {F : Type 0} where
  -- A goroutine for one of the resolutions, whose Fetch gave this result in some state of the client.
  pub record Ran (cfg : Config) (symbol : Bytes) (resolutions : List Bytes) (bars : ℤ)
      (g : Bytes × Result (ChartData F)) : Type 0 where
    pub launched : member g.0 resolutions ≡ true
    pub sections : List (Section F)
    pub passed : All HasPassed sections
    pub env : Env F
    pub gave : (fetch (after (new_client cfg) sections) symbol g.0 bars env).0 ≡ g.1

  Ended-Ran :
      (cfg : Config) (symbol : Bytes) (resolutions : List Bytes) (bars : ℤ) (r : Bytes)
      (res : Result (ChartData F)) (results : List (Bytes × Result (ChartData F)))
      → All (Ran cfg symbol resolutions bars) results
      → Ended r res results
      → Ran cfg symbol resolutions bars (r, res)
  Ended-Ran cfg symbol resolutions bars r res [] ran never = elim never [ ]
  Ended-Ran cfg symbol resolutions bars r res ((q, other) ∷ rest) ran (inl (e, e')) =
      subst (Ran cfg symbol resolutions bars) (ap₂ (λ a b. (a, b)) e e') ran.0
  Ended-Ran cfg symbol resolutions bars r res ((q, other) ∷ rest) ran (inr later) =
      Ended-Ran cfg symbol resolutions bars r res rest ran.1 later

  From-names :
      (cfg : Config) (sections : List (Section F)) (q : Request) (env : Env F) (chart : ChartData F)
      → From (with_defaults cfg).cache_ttls (Among sections) q env chart
      → (chart.symbol ≡ q.symbol) × (chart.resolution ≡ q.resolution)
  From-names cfg sections q env chart (inl (_, (_, _, is))) =
      (ap (λ d. d.symbol) is, ap (λ d. d.resolution) is)
  From-names cfg sections q env chart (inr (_, (_, _, r))) = (r.symbol_is, r.resolution_is)

  -- A slab under a resolution is the chart that a goroutine's Fetch gave for a spelling of it.
  pub record Gathered (cfg : Config) (symbol : Bytes) (resolutions : List Bytes) (bars : ℤ)
      (results : List (Bytes × Result (ChartData F))) (k : Bytes) (chart : ChartData F)
      : Type 0 where
    pub asked : Bytes
    pub launched : member asked resolutions ≡ true
    pub ended : Ended asked (ok chart) results
    pub spelled : normalize_resolution asked ≡ some k
    pub symbol_is : chart.symbol ≡ normalize_symbol symbol
    pub resolution_is : chart.resolution ≡ k
    pub sections : List (Section F)
    pub env : Env F
    pub request : Request
    pub checked : check (after (new_client cfg) sections) symbol asked bars ≡ ok request
    pub from : From (with_defaults cfg).cache_ttls (Among sections) request env chart

  Ran-Gathered :
      (cfg : Config) (symbol : Bytes) (resolutions : List Bytes) (bars : ℤ)
      (results : List (Bytes × Result (ChartData F))) (k r : Bytes) {chart : ChartData F}
      → Ended r (ok chart) results
      → chart.resolution ≡ k
      → Ran cfg symbol resolutions bars (r, ok chart)
      → Gathered cfg symbol resolutions bars results k chart
  Ran-Gathered cfg symbol resolutions bars results k r {chart} ended under ran =
      let c = after (new_client cfg) ran.sections in
      let (q, checked, from) =
        fetch-From cfg ran.sections symbol r bars ran.env {chart = chart} ran.passed ran.gave in
      let (normal, symbol_is, resolution_is, _) = check-IsNormal c symbol r bars {q = q} checked in
      let (chart_symbol, chart_resolution) = From-names cfg ran.sections q ran.env chart from in
      record {
        asked = r;
        launched = ran.launched;
        ended = ended;
        spelled = resolution_is ∙ ap some (sym chart_resolution ∙ under);
        symbol_is = chart_symbol ∙ symbol_is;
        resolution_is = under;
        sections = ran.sections;
        env = ran.env;
        request = q;
        checked = checked;
        from = from;
      }

  -- What the maps of a FetchMulti hold, where each goroutine runs Fetch for one of the resolutions,
  -- in whatever state the client is by then: a slab is under the normal form of one of the
  -- resolutions, and is the chart that a goroutine's Fetch gave for it and for the normal form of the
  -- symbol: what the network gave for this very request, in this call or, marked as cached and within
  -- the TTL, in an earlier one.
  pub fetch_multi-Gathered :
      (cfg : Config) (c : Client F) (symbol : Bytes) (resolutions : List Bytes) (bars : ℤ)
      (results : List (Bytes × Result (ChartData F))) (start fetched done : ℕ)
      {out : MultiChartData F} (k : Bytes) (chart : ChartData F)
      → All (Ran cfg symbol resolutions bars) results
      → fetch_multi c symbol resolutions results start fetched done ≡ ok out
      → lookup k out.slabs ≡ some chart
      → Gathered cfg symbol resolutions bars results k chart
  fetch_multi-Gathered cfg c symbol resolutions bars results start fetched done {out} k chart ran e
        there =
      let (slabs, _) =
        fetch_multi-maps c symbol resolutions results start fetched done {out = out} e in
      let (r, ended, under) = slabs k chart there in
      Ran-Gathered cfg symbol resolutions bars results k r {chart = chart} ended under
        (Ended-Ran cfg symbol resolutions bars r (ok chart) results ran ended)
