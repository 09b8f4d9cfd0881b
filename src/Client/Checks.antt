-- ===== src/Client/Checks.antt =====
-- What the checks of Fetch let through.
use tradingview_go.Common.{◌≡◌, ◌≢◌, true, false, some, [], arith, ℤ, pos, leb_ℤ, ltb_ℤ}
use tradingview_go.Text.{Bytes, beq_iff}
use tradingview_go.Errors.{ok}
use tradingview_go.Symbols.{normalize_symbol, normalize_resolution, member}
use tradingview_go.Symbols.Laws.{wire_forms, normalize_resolution-wire}
use tradingview_go.Client.{Client, Request, check, max_bars}

-- A request in normal form: what may go to the network.
pub record IsNormal (q : Request) : Type 0 where
  pub has_symbol : q.symbol ≢ []
  pub wire : member q.resolution wire_forms ≡ true
  pub some_bars : leb_ℤ q.bars (pos 0) ≡ false
  pub few_bars : ltb_ℤ max_bars q.bars ≡ false

module _ {F : Type 0} (c : Client F) (symbol resolution : Bytes) (bars : ℤ) where
  check-parts :
      {q : Request}
      → check c symbol resolution bars ≡ ok q
      → (c.is_closed ≡ false)
        × (q.symbol ≡ normalize_symbol symbol)
        × (q.symbol ≢ [])
        × (normalize_resolution resolution ≡ some q.resolution)
        × (leb_ℤ q.bars (pos 0) ≡ false)
        × (ltb_ℤ max_bars q.bars ≡ false)
  unfolding check
  check-parts {q} e = ground (arith, beq_iff (normalize_symbol symbol) [])

  -- A request that passes the checks of Fetch is in normal form: it has a symbol, a wire resolution,
  -- and between 1 and 5000 bars; its symbol and resolution are the normal forms of those asked for,
  -- and the client is not closed.
  pub check-IsNormal :
      {q : Request}
      → check c symbol resolution bars ≡ ok q
      → IsNormal q
        × (q.symbol ≡ normalize_symbol symbol)
        × (normalize_resolution resolution ≡ some q.resolution)
        × (c.is_closed ≡ false)
  check-IsNormal {q} e =
      let (opened, sym_is, has, res_is, some_bars, few_bars) = check-parts {q = q} e in
      (
        record {
          has_symbol = has;
          wire = (normalize_resolution-wire resolution res_is).0;
          some_bars = some_bars;
          few_bars = few_bars;
        },
        sym_is,
        res_is,
        opened,
      )
