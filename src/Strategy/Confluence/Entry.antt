-- ===== src/Strategy/Confluence/Entry.antt =====
-- When `try_enter` of src/strategy/confluence_strategy.hpp gives a signal, and which one.
use finam_tradebot.Prelude.{
  ◌+◌, ◌*◌, ◌≤◌, ◌<◌, ◌≡◌, refl, ◌∙◌, ◌&&◌, ◌↔◌, not, true, false, none, some, arith, if◌then◌else◌,
}
use mathlib.Core.Path.{subst}
use finam_tradebot.Prelude.Int.{pos, ◌+ℤ◌}
use finam_tradebot.Prelude.Map.{eqb_ℤ_iff}
use finam_tradebot.Core.Types.{Timestamp, second, Direction, Signal}
use finam_tradebot.Double.{Double}
use finam_tradebot.Strategy.OfiTypes.{Vote, vote_value, OfiVote, is_strong, is_long, is_short}
use finam_tradebot.Strategy.OrderBookState
use finam_tradebot.Strategy.TradeFlow
use finam_tradebot.Strategy.SpoofFilter
use finam_tradebot.Strategy.SessionContext.{Bias, allows_long, allows_short}
use finam_tradebot.Strategy.Confluence.{
  Confluence, try_enter, entry_blocked, current_vote, confluence, build_entry, is_no_bias,
}

-- Both votes, the bias and the direction of the order point one way.
pub data Agrees : Vote → Vote → Bias → Direction → Type 0 where
  up : Agrees Vote.long Vote.long Bias.long Direction.buy
  down : Agrees Vote.short Vote.short Bias.short Direction.sell

-- The vote that `try_enter` makes of two votes.
abbrev joined : Vote → Vote → OfiVote
joined a b = record { mlofi = a; tfi = b; confluence = vote_value a +ℤ vote_value b }

abbrev direction_of : OfiVote → Direction
direction_of v = if is_long v then Direction.buy else Direction.sell

-- The part of the test that reads the votes and the bias, with its outcome.
Agrees-of_tests :
    (a b : Vote) (bias : Bias)
    → is_strong (joined a b) ≡ true
    → (is_long (joined a b) && not (allows_long bias)) ≡ false
    → (is_short (joined a b) && not (allows_short bias)) ≡ false
    → Agrees a b bias (direction_of (joined a b))
unfolding is_strong is_long is_short allows_long allows_short ◌+ℤ◌
Agrees-of_tests Vote.long Vote.long Bias.long s l h = up
Agrees-of_tests Vote.short Vote.short Bias.short s l h = down
Agrees-of_tests Vote.long Vote.long Bias.short s l h = cc
Agrees-of_tests Vote.long Vote.long Bias.no_bias s l h = cc
Agrees-of_tests Vote.short Vote.short Bias.long s l h = cc
Agrees-of_tests Vote.short Vote.short Bias.no_bias s l h = cc
Agrees-of_tests Vote.long Vote.short bias s l h = cc
Agrees-of_tests Vote.long Vote.neutral bias s l h = cc
Agrees-of_tests Vote.short Vote.long bias s l h = cc
Agrees-of_tests Vote.short Vote.neutral bias s l h = cc
Agrees-of_tests Vote.neutral Vote.long bias s l h = cc
Agrees-of_tests Vote.neutral Vote.short bias s l h = cc
Agrees-of_tests Vote.neutral Vote.neutral bias s l h = cc

tests_of_Agrees :
    {a b : Vote} {bias : Bias} {dir : Direction}
    → Agrees a b bias dir
    → (is_strong (joined a b) ≡ true)
      × ((is_long (joined a b) && not (allows_long bias)) ≡ false)
      × ((is_short (joined a b) && not (allows_short bias)) ≡ false)
      × (direction_of (joined a b) ≡ dir)
      × (is_no_bias bias ≡ false)
unfolding is_strong is_long is_short allows_long allows_short ◌+ℤ◌
tests_of_Agrees up = (refl, refl, refl, refl, refl)
tests_of_Agrees down = (refl, refl, refl, refl, refl)

module _ {W : Type 0} ⦃d : Double W⦄ where
  -- All that holds when the strategy enters.
  pub record MayEnter (ts : Timestamp) (s : Confluence W) (dir : Direction) : Type 0 where
    pub flat : s.position ≡ pos 0
    pub range_known : s.session_ctx.orb_finalized ≡ true
    pub cooled_down : s.last_signal_ts + 5 * second ≤ ts
    pub agreed :
        Agrees
          (OrderBookState.vote s.ob_state)
          (TradeFlow.vote s.tfi_analyzer)
          s.session_ctx.bias
          dir
    pub bid_clean : SpoofFilter.is_spoofed s.current_bid ts s.spoof_filter ≡ false
    pub ask_clean : SpoofFilter.is_spoofed s.current_ask ts s.spoof_filter ≡ false

  MayEnter-of_not_blocked :
      (ts : Timestamp) (s : Confluence W)
      → entry_blocked ts s ≡ false
      → MayEnter ts s (direction_of (current_vote s))
  unfolding entry_blocked current_vote confluence
  MayEnter-of_not_blocked ts s h =
      let votes =
        Agrees-of_tests (OrderBookState.vote s.ob_state) (TradeFlow.vote s.tfi_analyzer)
          s.session_ctx.bias in
      ground (arith, eqb_ℤ_iff s.position (pos 0), votes)

  not_blocked_of_MayEnter :
      (ts : Timestamp) (s : Confluence W) {dir : Direction}
      → MayEnter ts s dir
      → (entry_blocked ts s ≡ false) × (direction_of (current_vote s) ≡ dir)
  unfolding entry_blocked current_vote confluence
  not_blocked_of_MayEnter ts s m =
      ground (arith, eqb_ℤ_iff s.position (pos 0), tests_of_Agrees m.agreed)

  entered :
      (ts : Timestamp) (s : Confluence W) {sig : Signal W}
      → (try_enter ts s).1 ≡ some sig
      → (entry_blocked ts s ≡ false) × (direction_of (current_vote s) ≡ sig.direction)
  unfolding try_enter build_entry
  entered ts s {sig} e = ground arith

  -- `try_enter` gives a signal in a direction exactly when `MayEnter` holds for that direction: the
  -- position is zero, the opening range is known, five seconds have passed since the last signal,
  -- both votes and the bias agree on the direction, and neither best price is flagged.
  pub try_enter_iff :
      (ts : Timestamp) (s : Confluence W) (dir : Direction)
      → ((sig : Signal W) × ((try_enter ts s).1 ≡ some sig) × (sig.direction ≡ dir))
        ↔ MayEnter ts s dir
  unfolding try_enter build_entry
  try_enter_iff ts s dir = (
    λ (sig, e, f).
        let (free, way) = entered ts s e in
        subst (MayEnter ts s) (way ∙ f) (MayEnter-of_not_blocked ts s free),
    λ m.
        let (free, way) = not_blocked_of_MayEnter ts s m in
        (build_entry (current_vote s) (record s { last_signal_ts = ts }), rw free, way),
  )

  -- When a signal is given, the strategy has its time and nothing else has changed; and for less than
  -- five seconds after it the strategy enters no more, whatever the market does to its indicators.
  pub try_enter_cooldown :
      (ts later : Timestamp) (s t : Confluence W) {sig : Signal W}
      → (try_enter ts s).1 ≡ some sig
      → t.last_signal_ts ≡ (try_enter ts s).0.last_signal_ts
      → later < ts + 5 * second
      → ((try_enter ts s).0 ≡ record s { last_signal_ts = ts }) × (try_enter later t ≡ (t, none))
  unfolding try_enter entry_blocked
  try_enter_cooldown ts later s t e same soon = ground arith
