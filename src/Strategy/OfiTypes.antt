-- ===== src/Strategy/OfiTypes.antt =====
-- src/strategy/ofi_types.hpp: results, votes and events of the order flow indicators.
use finam_tradebot.Prelude.{ℕ, Bool, false, ◌||◌, List, replicate}
use finam_tradebot.Prelude.Int.{ℤ, pos, negsuc, ltb_ℤ}
use finam_tradebot.Prelude.Map.{eqb_ℤ}
use finam_tradebot.Core.Types.{Timestamp}
use finam_tradebot.Double.{Double, nought}

abbrev pub book_levels : ℕ
book_levels = 5

pub record MlofiResult (W : Type 0) : Type 0 where
  pub score : W
  pub levels : List W
  pub ts : Timestamp

pub record TfiResult (W : Type 0) : Type 0 where
  pub tfi : W
  pub cvd : W
  pub velocity : W
  pub large_print : Bool
  pub ts : Timestamp

pub data Vote : Type 0 where
  long short neutral : Vote

-- `static_cast<int>` of a vote.
abbrev pub vote_value : Vote → ℤ
vote_value long = pos 1
vote_value short = negsuc 0
vote_value neutral = pos 0

pub record OfiVote : Type 0 where
  pub mlofi : Vote
  pub tfi : Vote
  pub confluence : ℤ

unfoldable pub is_strong : OfiVote → Bool
is_strong v = eqb_ℤ v.confluence (pos 2) || eqb_ℤ v.confluence (negsuc 1)

unfoldable pub is_long : OfiVote → Bool
is_long v = ltb_ℤ (pos 0) v.confluence

unfoldable pub is_short : OfiVote → Bool
is_short v = ltb_ℤ v.confluence (pos 0)

pub record BookLevelEvent (W : Type 0) : Type 0 where
  pub level : ℤ
  pub price : W
  pub old_bid_size : W
  pub new_bid_size : W
  pub old_ask_size : W
  pub new_ask_size : W
  pub ts : Timestamp

pub record TradeEvent (W : Type 0) : Type 0 where
  pub price : W
  pub volume : W
  pub is_buy : Bool
  pub ts : Timestamp

module _ {W : Type 0} ⦃d : Double W⦄ where
  abbrev pub no_mlofi : MlofiResult W
  no_mlofi = record { score = nought; levels = replicate book_levels nought; ts = 0 }

  abbrev pub no_tfi : TfiResult W
  no_tfi = record { tfi = nought; cvd = nought; velocity = nought; large_print = false; ts = 0 }
