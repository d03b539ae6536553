-- ===== src/Main/Broadcast.antt =====
-- Whom the callback of src/main.cpp reaches with an update of an order.
use finam_tradebot.Prelude.{
  ℕ, zero, suc, ◌≡◌, refl, Bool, true, false, ◌&&◌, ◌||◌, none, some, List, [], ◌∷◌, if◌then◌else◌,
  length, get_elem?, set, replicate, arith,
}
use finam_tradebot.Prelude.Int.{ℤ, pos, ltb_ℤ}
use finam_tradebot.Prelude.Text.{is_empty, stol}
use finam_tradebot.Core.Types.{Timestamp, Symbol, symbol_eq, symbol_eq_iff, OrderUpdate}
use finam_tradebot.Double.{Double}
use finam_tradebot.Risk.RiskManager.{RiskManager, on_fill}
use finam_tradebot.Order.OrderClient.{
  OrderClient, StreamOrder, on_stream_order, streamed, symbol_of, upsert, or_zero, find,
}
use finam_tradebot.Strategy.Runner.{Runner, order_update, on_update, is_fill_status}
use finam_tradebot.Main.{broadcast}

symbol_eq_sym : (s t : Symbol) → symbol_eq s t ≡ false → symbol_eq t s ≡ false
symbol_eq_sym s t other = ground (arith, symbol_eq_iff s t, symbol_eq_iff t s)

module _ {W : Type 0} ⦃d : Double W⦄ where
  -- The update is a fill.
  abbrev pub is_fill : OrderUpdate W → Bool
  is_fill upd = is_fill_status upd.status && ltb_ℤ (pos 0) upd.qty_filled

  -- The fill is booked `n` times.
  abbrev pub booked : ℕ → OrderUpdate W → RiskManager W → RiskManager W
  booked zero upd risk = risk
  booked (suc n) upd risk = booked n upd (if is_fill upd then on_fill upd risk else risk)

  on_update-taken :
      (upd : OrderUpdate W) (r : Runner W) (risk : RiskManager W)
      → (symbol_eq upd.symbol r.active_symbol || is_empty upd.symbol.security_code) ≡ true
      → on_update upd (record r { risk = some risk })
        ≡ (record r { risk = some (booked 1 upd risk) }, some (order_update upd))
  unfolding on_update
  on_update-taken upd r risk taken = ground (arith, taken)

  on_update-skipped :
      (upd : OrderUpdate W) (r : Runner W) (risk : RiskManager W)
      → (symbol_eq upd.symbol r.active_symbol || is_empty upd.symbol.security_code) ≡ false
      → on_update upd (record r { risk = some risk }) ≡ (record r { risk = some risk }, none)
  unfolding on_update
  on_update-skipped upd r risk skipped = ground (arith, skipped)

  -- An update without a symbol reaches every runner, and books its fill once for each.
  pub broadcast-no_symbol :
      (upd : OrderUpdate W) (rs : List (Runner W)) (risk : RiskManager W)
      → is_empty upd.symbol.security_code ≡ true
      → broadcast upd rs (some risk)
        ≡ (some (booked (length rs) upd risk), replicate (length rs) (some (order_update upd)))
  unfolding broadcast
  broadcast-no_symbol upd [] risk empty = refl
  broadcast-no_symbol upd (r ∷ rs) risk empty = rw (
    on_update-taken upd r risk (ground (arith, empty)),
    broadcast-no_symbol upd rs (booked 1 upd risk) empty,
  )

  symbol_of-find :
      (k : ℤ) (c : OrderClient W) → find k c ≡ none → is_empty (symbol_of k c).security_code ≡ true
  unfolding symbol_of find
  symbol_of-find k c unknown = ground (arith, unknown)

  on_stream_order-no_symbol :
      (o : StreamOrder) (now : Timestamp) (c : OrderClient W)
      → find (or_zero (stol o.client_order_id)) c ≡ none
      → is_empty (on_stream_order o now c).1.symbol.security_code ≡ true
  unfolding on_stream_order streamed upsert
  on_stream_order-no_symbol o now c unknown =
      symbol_of-find (or_zero (stol o.client_order_id)) c unknown

  -- An order of the stream whose number the client does not know reaches every runner: each queue
  -- gets the update, and the risk manager books the same fill once for each runner.
  pub unknown_order_lem :
      (o : StreamOrder) (now : Timestamp) (c : OrderClient W)
      → (rs : List (Runner W)) (risk : RiskManager W)
      → find (or_zero (stol o.client_order_id)) c ≡ none
      → (let upd = (on_stream_order o now c).1 in
          broadcast upd rs (some risk)
          ≡ (some (booked (length rs) upd risk), replicate (length rs) (some (order_update upd))))
  unknown_order_lem o now c rs risk unknown =
      broadcast-no_symbol (on_stream_order o now c).1 rs risk
        (on_stream_order-no_symbol o now c unknown)

  -- No runner trades the symbol.
  abbrev pub NoneTrades : Symbol → List (Runner W) → Type 0
  NoneTrades sym [] = Unit
  NoneTrades sym (r ∷ rs) = (symbol_eq sym r.active_symbol ≡ false) × NoneTrades sym rs

  -- Every two runners trade different symbols.
  abbrev pub AllDistinct : List (Runner W) → Type 0
  AllDistinct [] = Unit
  AllDistinct (r ∷ rs) = NoneTrades r.active_symbol rs × AllDistinct rs

  broadcast-NoneTrades :
      (upd : OrderUpdate W) (rs : List (Runner W)) (risk : RiskManager W)
      → is_empty upd.symbol.security_code ≡ false
      → NoneTrades upd.symbol rs
      → broadcast upd rs (some risk) ≡ (some risk, replicate (length rs) none)
  unfolding broadcast
  broadcast-NoneTrades upd [] risk named others = refl
  broadcast-NoneTrades upd (r ∷ rs) risk named others = rw (
    on_update-skipped upd r risk (ground (arith, named, others.0)),
    broadcast-NoneTrades upd rs risk named others.1,
  )

  NoneTrades-get_elem? :
      (sym : Symbol) (rs : List (Runner W)) (i : ℕ) (r : Runner W)
      → NoneTrades sym rs
      → get_elem? rs i ≡ some r
      → symbol_eq sym r.active_symbol ≡ false
  NoneTrades-get_elem? sym [] i r none_there there = absurd (ground arith)
  NoneTrades-get_elem? sym (s ∷ rs) zero r none_there there = ground (arith, none_there.0)
  NoneTrades-get_elem? sym (s ∷ rs) (suc i) r none_there there =
      NoneTrades-get_elem? sym rs i r none_there.1 there

  -- Where the runners trade different symbols, an update with the symbol of one of them reaches the
  -- queue of that runner alone, and its fill is booked once.
  pub broadcast-AllDistinct :
      (upd : OrderUpdate W) (rs : List (Runner W)) (risk : RiskManager W) (i : ℕ) (r : Runner W)
      → is_empty upd.symbol.security_code ≡ false
      → AllDistinct rs
      → get_elem? rs i ≡ some r
      → upd.symbol ≡ r.active_symbol
      → broadcast upd rs (some risk)
        ≡ (some (booked 1 upd risk), set (replicate (length rs) none) i (some (order_update upd)))
  unfolding broadcast
  broadcast-AllDistinct upd [] risk i r named distinct there own = absurd (ground arith)
  broadcast-AllDistinct upd (s ∷ rs) risk zero r named distinct there own =
      let same : upd.symbol ≡ s.active_symbol = ground (arith, there, own) in
      let taken : symbol_eq upd.symbol s.active_symbol ≡ true = (symbol_eq_iff _ _).1 same in
      rw (
        on_update-taken upd s risk (ground (arith, taken)),
        broadcast-NoneTrades upd rs (booked 1 upd risk) named (rw same distinct.0),
      )
  broadcast-AllDistinct upd (s ∷ rs) risk (suc i) r named distinct there own =
      let other = NoneTrades-get_elem? s.active_symbol rs i r distinct.0 there in
      let skipped : symbol_eq upd.symbol s.active_symbol ≡ false =
        rw own (symbol_eq_sym s.active_symbol r.active_symbol other) in
      rw (
        on_update-skipped upd s risk (ground (arith, named, skipped)),
        broadcast-AllDistinct upd rs risk i r named distinct.1 there own,
      )
