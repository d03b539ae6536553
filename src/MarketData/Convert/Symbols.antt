-- ===== src/MarketData/Convert/Symbols.antt =====
-- `symbol_from_string` of src/market_data/market_data_client.cpp against `to_string` of
-- src/core/interfaces.hpp.
use finam_tradebot.Prelude.{
  ℕ, suc, ◌+◌, ◌≡◌, refl, ap, none, some, [], ◌∷◌, ◌++◌, take, drop, arith, length,
}
use finam_tradebot.Prelude.Text.{Text, text, rfind}
use finam_tradebot.Core.Types.{Symbol, to_string}
use finam_tradebot.MarketData.Convert.{symbol_from_string}

-- The last place of a byte before a rest without it.
rfind-append : (c : ℕ) (s t : Text) → rfind c t ≡ none → rfind c (s ++ (c ∷ t)) ≡ some (length s)
unfolding rfind
rfind-append c [] t h = ground (arith, h)
rfind-append c (e ∷ s) t h = rw (rfind-append c s t h)

take-length-append : (s t : Text) → take (length s) (s ++ t) ≡ s
take-length-append [] t = refl
take-length-append (e ∷ s) t = ap (λ r. e ∷ r) (take-length-append s t)

drop-length-append : (s t : Text) (c : ℕ) → drop (suc (length s)) (s ++ (c ∷ t)) ≡ t
drop-length-append [] t c = refl
drop-length-append (e ∷ s) t c = drop-length-append s t c

-- A symbol whose board has no "@" is read back from its text, whatever its code.
pub symbol_from_string-to_string :
    (s : Symbol) → rfind b'@' s.security_board ≡ none → symbol_from_string (to_string s) ≡ s
unfolding symbol_from_string to_string text
symbol_from_string-to_string s h =
    let next : length s.security_code + 1 ≡ suc (length s.security_code) = omega arith in
    rw (
      rfind-append b'@' s.security_code s.security_board h,
      symbol_from_string,
      take-length-append s.security_code,
      next,
      drop-length-append s.security_code s.security_board b'@',
    )
