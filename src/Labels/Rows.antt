-- ===== src/Labels/Rows.antt =====
-- `build_label_rows` of services/quant-engine/app/labels/engine.py, from the groups of bars and features
-- by symbol and interval on, in the order of their times. `detect` is the candidate engine.
use simple_scanner.Common.{
  ℕ, ◌+◌, String, Bool, not, ◌&&◌, ◌||◌, Option, none, some, List, [], ◌∷◌, ◌++◌, ltb, leb,
  if◌then◌else◌, length, str_eq,
}
use simple_scanner.Labels.Market.{PriceOps, Bar, LabelSettings, Candidate, Feature, LabelRow}
use simple_scanner.Labels.Engine.{index_of, label_candidate}

-- `blocked_until`, by symbol and setup; a key that is missing counts as `datetime.min`.
pub record Block : Type 0 where
  pub symbol : String
  pub setup_type : String
  pub until : ℕ

abbrev pub is_block_of : String → String → Block → Bool
is_block_of symbol setup b = str_eq b.symbol symbol && str_eq b.setup_type setup

unfoldable pub blocked_until : String → String → List Block → ℕ
blocked_until symbol setup [] = 0
blocked_until symbol setup (b ∷ bs) =
    if is_block_of symbol setup b then b.until else blocked_until symbol setup bs

unfoldable pub set_block : Block → List Block → List Block
set_block b [] = b ∷ []
set_block b (c ∷ cs) = if is_block_of b.symbol b.setup_type c then b ∷ cs else c ∷ set_block b cs

-- The bars and the features of one symbol and interval.
pub record Group (F : Type 0) : Type 0 where
  pub bars : List (Bar F)
  pub features : List (Feature F)

module _ {F : Type 0} where
  abbrev pub block_of : LabelRow F → Block
  block_of l = record {
    symbol = l.symbol;
    setup_type = l.setup_type;
    until = l.found.exit_timestamp_utc;
  }

  -- A label is added, and blocks its symbol and setup until its exit.
  abbrev pub with_label : Option (LabelRow F) → List Block → List Block
  with_label none blocks = blocks
  with_label (some l) blocks = set_block (block_of l) blocks

  abbrev pub add_label : Option (LabelRow F) → List (LabelRow F) → List (LabelRow F)
  add_label none ls = ls
  add_label (some l) ls = l ∷ ls

  -- `if label is None: continue`, and `break` after a label.
  abbrev pub found_or : Option (LabelRow F) → Option (LabelRow F) → Option (LabelRow F)
  found_or none rest = rest
  found_or (some l) rest = some l

module _ {F : Type 0} (ops : PriceOps F) (detect : Feature F → List Candidate) where
  abbrev pub is_blocked : LabelSettings F → Feature F → Candidate → List Block → Bool
  is_blocked s f c blocks =
      not s.allow_overlapping_trades && leb f.timestamp (blocked_until c.symbol c.setup_type blocks)

  -- The candidates of one feature: the first that gives a label ends the loop.
  unfoldable pub first_label :
      LabelSettings F
      → List (Bar F)
      → ℕ
      → Feature F
      → List Candidate
      → List Block
      → Option (LabelRow F)
  first_label s bars index f [] blocks = none
  first_label s bars index f (c ∷ cs) blocks =
      let rest = first_label s bars index f cs blocks in
      if is_blocked s f c blocks
      then rest
      else found_or (label_candidate ops s bars index f.timestamp f c) rest

  -- One feature: it needs a bar of its time, enough bars before it and one after it.
  abbrev pub label_at :
      LabelSettings F → List (Bar F) → Option ℕ → Feature F → List Block → Option (LabelRow F)
  label_at s bars none f blocks = none
  label_at s bars (some index) f blocks =
      if ltb index s.minimum_bars_before_label || leb (length bars) (index + 1)
      then none
      else first_label s bars index f (detect f) blocks

  unfoldable pub label_features :
      LabelSettings F
      → List (Bar F)
      → List (Feature F)
      → List Block
      → List (LabelRow F) × List Block
  unfolding first_label set_block
  label_features s bars [] blocks = ([], blocks)
  label_features s bars (f ∷ fs) blocks =
      let label = label_at s bars (index_of f.timestamp bars) f blocks in
      let (rest, blocks') = label_features s bars fs (with_label label blocks) in
      (add_label label rest, blocks')

  unfoldable pub label_groups : LabelSettings F → List (Group F) → List Block → List (LabelRow F)
  unfolding label_features
  label_groups s [] blocks = []
  label_groups s (g ∷ gs) blocks =
      let (here, blocks') = label_features s g.bars g.features blocks in
      here ++ label_groups s gs blocks'

  unfoldable pub build_label_rows : LabelSettings F → List (Group F) → List (LabelRow F)
  unfolding label_groups
  build_label_rows s groups = label_groups s groups []
