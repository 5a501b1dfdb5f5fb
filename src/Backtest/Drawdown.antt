-- ===== src/Backtest/Drawdown.antt =====
-- The drawdown of a summary and the drawdown series of a replay: `_max_drawdown` of
-- services/quant-engine/app/backtesting/engine.py, `_drawdown_series` of
-- services/quant-engine/app/backtesting/replay.py.
use simple_scanner.Common.{◌≡◌, refl, List, [], ◌∷◌}
use simple_scanner.Common.Floats.{Floats, zero_float, max_float, min_float, least_of}
use simple_scanner.Replay.Metrics.{drawdown_from, drawdown_series}
use simple_scanner.Backtest.Engine.{drawdown_onto, max_drawdown}

module _ {F : Type 0} (fl : Floats F) where
  drawdown_onto-least_of :
      (peak worst : F) (vs : List F)
      → drawdown_onto fl peak worst vs ≡ least_of fl worst (drawdown_from fl peak vs)
  unfolding least_of drawdown_from
  drawdown_onto-least_of peak worst [] = refl
  drawdown_onto-least_of peak worst (v ∷ vs) =
      let peak' = max_float fl peak v in
      drawdown_onto-least_of peak' (min_float fl worst (fl.sub v peak')) vs

  -- The greatest drawdown of a backtest is the least of zero and the entries of the drawdown series that a
  -- replay gives for the same equity.
  max_drawdown-least_of :
      (equity : List F)
      → max_drawdown fl equity ≡ least_of fl (zero_float fl) (drawdown_series fl equity)
  unfolding max_drawdown drawdown_series
  max_drawdown-least_of equity = drawdown_onto-least_of (zero_float fl) (zero_float fl) equity
