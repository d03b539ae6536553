-- ===== src/MarketData/Convert.antt =====
-- The helpers of src/market_data/market_data_client.cpp: values of the protocol read into the types of
-- the program.
pub mod Symbols
use finam_tradebot.Prelude.{ℕ, ◌+◌, ◌*◌, none, some, [], take, drop, if◌then◌else◌}
use finam_tradebot.Prelude.Text.{Text, text, text_eq, rfind}
use finam_tradebot.Core.Types.{Timestamp, Symbol, second}
use finam_tradebot.Double.{Double, nought}

-- The time frames of the protocol.
pub data TimeFrame : Type 0 where
  m1 m5 m15 m30 h1 h2 h4 h8 daily weekly monthly quarterly : TimeFrame

unfoldable pub timeframe_to_proto : Text → TimeFrame
timeframe_to_proto tf =
    if text_eq tf (text "M1")
    then m1
    else (if text_eq tf (text "M5")
        then m5
        else (if text_eq tf (text "M15")
            then m15
            else (if text_eq tf (text "M30")
                then m30
                else (if text_eq tf (text "H1")
                    then h1
                    else (if text_eq tf (text "H2")
                        then h2
                        else (if text_eq tf (text "H4")
                            then h4
                            else (if text_eq tf (text "H8")
                                then h8
                                else (if text_eq tf (text "D1")
                                    then daily
                                    else (if text_eq tf (text "W1")
                                        then weekly
                                        else (if text_eq tf (text "MN")
                                            then monthly
                                            else (if text_eq tf (text "QR")
                                                then quarterly
                                                else m1)))))))))))

-- `google::protobuf::Timestamp`, from 1970 on.
pub record ProtoTime : Type 0 where
  pub seconds : ℕ
  pub nanos : ℕ

unfoldable pub ts_from_proto : ProtoTime → Timestamp
ts_from_proto t = t.seconds * second + t.nanos

unfoldable pub symbol_from_string : Text → Symbol
symbol_from_string s = elim (rfind b'@' s) [
  | none ↦ record { security_code = s; security_board = [] }
  | some at ↦ record { security_code = take at s; security_board = drop (at + 1) s }
]

module _ {W : Type 0} ⦃d : Double W⦄ where
  unfoldable pub decimal_to_double : Text → W
  decimal_to_double t = elim (d.stod t) [ none ↦ nought | some x ↦ x ]
