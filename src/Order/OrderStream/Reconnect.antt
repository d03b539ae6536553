-- ===== src/Order/OrderStream/Reconnect.antt =====
-- Reconnects neither lose nor repeat an order, and the fills add up across them.
use finam_tradebot.Prelude.{
  ℕ, ◌<◌, sym, ◌≡◌, refl, ap, ◌∙◌, ◌⊎◌, inl, inr, Bool, true, false, Bool-cases, some, List, [],
  ◌∷◌, ◌++◌, if◌then◌else◌, arith,
}
use finam_tradebot.Prelude.Int.{ℤ, pos, ◌+ℤ◌, ◌-ℤ◌}
use finam_tradebot.Core.Backoff.{Backoff, reset, wait}
use finam_tradebot.Core.Backoff.Wait.{wait_lem, wait_cfg, wait-woken}
use finam_tradebot.Core.Maintenance.{default_config, wait_if_active, is_active}
use finam_tradebot.MarketData.Streams.Sessions.{feed_cfg}
use finam_tradebot.Double.{Double}
use finam_tradebot.MarketData.Streams.{feed}
use finam_tradebot.Order.OrderClient.{
  OrderClient, OrderState, on_stream_order, streamed, upsert, prev_filled,
}
use finam_tradebot.Order.OrderClient.Deltas.{follow, reported, reported_lem}
use finam_tradebot.Prelude.Map.{eqb_ℤ}
use finam_tradebot.Core.Backoff
use finam_tradebot.Order.OrderStream.{
  Response, Round, on_orders, after_stream, add_updates, run_rounds, run_order_stream,
}

abbrev pub all_orders : List Response → Response
all_orders [] = []
all_orders (os ∷ ms) = os ++ all_orders ms

-- The flag is set after the stream, or in a round of the wait.
abbrev pub Ends : Round → Type 0
Ends x = (x.stopped ≡ true) ⊎ ((i : ℕ) × (x.stop_reads i ≡ true))

-- The wait for the end of the window gives an answer in each round.
abbrev pub AllPolled : List Round → Type 0
AllPolled [] = Unit
AllPolled (x ∷ xs) =
    ((go : Bool) × (wait_if_active default_config x.entered x.readings ≡ some go)) × AllPolled xs

-- The orders are those of all rounds, up to one in which the flag is set.
abbrev pub Reads : List Round → Response → Type 0
Reads [] os = os ≡ []
Reads (x ∷ xs) os =
    ((wait_if_active default_config x.entered x.readings ≡ some false) × (os ≡ []))
    ⊎ ((Ends x × (os ≡ all_orders x.responses))
        ⊎ ((later : Response) × (os ≡ all_orders x.responses ++ later) × Reads xs later))

module _ {W : Type 0} ⦃d : Double W⦄ where
  on_orders-append :
      (os ps : Response) (c : OrderClient W)
      → on_orders (os ++ ps) c ≡ (
          let (c₁, upds) = on_orders os c in
          let (c₂, later) = on_orders ps c₁ in (c₂, upds ++ later))
  unfolding on_orders
  on_orders-append [] ps c = refl
  on_orders-append ((o, now) ∷ os) ps c = rw (on_orders-append os ps (on_stream_order o now c).0)

  feed-on_orders :
      (ms : List Response) (bo : Backoff W) (c : OrderClient W)
      → (let f = feed (λ os c. some (on_orders os c)) ms bo c in
          (f.state, f.calls) ≡ on_orders (all_orders ms) c)
  unfolding feed on_orders
  feed-on_orders [] bo c = refl
  feed-on_orders (os ∷ ms) bo c =
      let (c₁, upds) = on_orders os c in
      ap (λ p. (p.0, upds ++ p.1)) (feed-on_orders ms (reset bo) c₁)
      ∙ sym (on_orders-append os (all_orders ms) c)

  feed_tick :
      (ms : List Response) (bo : Backoff W) (c : OrderClient W)
      → 0 < bo.cfg.tick
      → 0 < (feed (λ os c. some (on_orders os c)) ms bo c).backoff.cfg.tick
  feed_tick ms bo c ticks = rw (feed_cfg (λ os c. some (on_orders os c)) ms bo c) ticks

  -- The result of a run over the rounds: the orders that were read, one after the other.
  abbrev Runs : (W → W → W) → List Round → Backoff W → OrderClient W → Type 0
  Runs draw xs bo c =
      (os : Response) × (run_rounds draw xs bo c ≡ some (on_orders os c)) × Reads xs os

  add-on_orders :
      (ms : List Response) (bo : Backoff W) (c : OrderClient W) (os : Response)
      → (let f = feed (λ os c. some (on_orders os c)) ms bo c in
          add_updates f.calls (some (on_orders os f.state))
          ≡ some (on_orders (all_orders ms ++ os) c))
  add-on_orders ms bo c os =
      let f = feed (λ os c. some (on_orders os c)) ms bo c in
      let read = feed-on_orders ms bo c in
      ap (λ p. some ((on_orders os p.0).0, p.1 ++ (on_orders os p.0).1)) read
      ∙ ap some (sym (on_orders-append (all_orders ms) os c))

  run_rounds-Runs :
      (draw : W → W → W) (xs : List Round) (bo : Backoff W) (c : OrderClient W)
      → AllPolled xs
      → 0 < bo.cfg.tick
      → Runs draw xs bo c
  unfolding run_rounds after_stream on_orders
  run_rounds-Runs draw [] bo c polled ticks = ([], refl, refl)
  run_rounds-Runs draw (x ∷ xs) bo c ((false, e), polled) ticks =
      ([], rw (e, run_rounds), inl (e, refl))
  run_rounds-Runs draw (x ∷ xs) bo c ((true, e), polled) ticks =
      let f = feed (λ os c. some (on_orders os c)) x.responses bo c in
      let ticks' = feed_tick x.responses bo c ticks in
      let read = feed-on_orders x.responses bo c in
      elim (Bool-cases x.stopped) [
        | inl stopped ↦ (
          all_orders x.responses,
          rw (e, run_rounds, stopped) (ap some read),
          inr (inl (inl stopped, refl)),
        )
        | inr runs ↦ elim (Bool-cases (is_active default_config x.ended)) [
          | inl inside ↦
              let (os, later, reads) = run_rounds-Runs draw xs f.backoff f.state polled ticks' in
              (
                all_orders x.responses ++ os,
                rw (e, run_rounds, runs, inside, later) (add-on_orders x.responses bo c os),
                inr (inr (os, refl, reads)),
              )
          | inr outside ↦
              let (bo', w, waits, _, _) = wait_lem draw x.stop_reads f.backoff ticks' in
              elim (Bool-cases w.completed) [
                | inl done ↦
                    let same = wait_cfg draw x.stop_reads f.backoff bo' w waits in
                    let (os, later, reads) =
                      run_rounds-Runs draw xs bo' f.state polled (rw same ticks') in
                    (
                      all_orders x.responses ++ os,
                      rw (e, run_rounds, runs, outside, waits, done, later)
                          (add-on_orders x.responses bo c os),
                      inr (inr (os, refl, reads)),
                    )
                | inr woken ↦
                    let flag = wait-woken draw x.stop_reads f.backoff bo' w waits woken in
                    (
                      all_orders x.responses,
                      rw (e, run_rounds, runs, outside, waits, woken) (ap some read),
                      inr (inl (inr flag, refl)),
                    )
              ]
        ]
      ]

  -- The fill quantities of the updates for one order, added up.
  abbrev pub reported_orders : ℤ → Response → OrderClient W → ℤ
  reported_orders k [] c = pos 0
  reported_orders k ((o, now) ∷ os) c =
      let (c₁, upd) = on_stream_order o now c in
      (if eqb_ℤ (streamed o now c).local_id k then upd.qty_filled else pos 0)
      +ℤ reported_orders k os c₁

  -- The states that the orders bring.
  abbrev states_of : Response → OrderClient W → List (OrderState W)
  states_of [] c = []
  states_of ((o, now) ∷ os) c = streamed o now c ∷ states_of os (upsert (streamed o now c) c).0

  reported-states_of :
      (k : ℤ) (os : Response) (c : OrderClient W)
      → (reported_orders k os c ≡ reported k (states_of os c) c)
        × ((on_orders os c).0 ≡ follow (states_of os c) c)
  unfolding on_orders on_stream_order
  reported-states_of k [] c = (refl, refl)
  reported-states_of k ((o, now) ∷ os) c =
      let s = streamed o now c in
      let (later, last) = reported-states_of k os (upsert s c).0 in
      (ap (λ n. (if eqb_ℤ s.local_id k then (upsert s c).1.qty_filled else pos 0) +ℤ n) later, last)

  -- However often the stream ends and is opened again, in the maintenance window and outside it, the
  -- loop comes to its end. The client and the updates are those of one run over the orders of all
  -- rounds, up to one in which the stop flag is set, so that no order is lost or repeated; and the
  -- fills reported for an order add up to the change of the quantity recorded for it. In each round
  -- the wait for the end of the window gives an answer.
  pub run_order_stream-Reads :
      (draw : W → W → W) (xs : List Round) (c : OrderClient W) (k : ℤ)
      → AllPolled xs
      → (os : Response) × (run_order_stream draw xs c ≡ some (on_orders os c))
        × Reads xs os
        × (reported_orders k os c ≡ prev_filled k (on_orders os c).0 -ℤ prev_filled k c)
  unfolding run_order_stream Backoff.make Backoff.default_config
  run_order_stream-Reads draw xs c k polled =
      let bo = Backoff.make Backoff.default_config in
      let (os, runs, reads) = run_rounds-Runs draw xs bo c polled (omega arith) in
      let (sums, last) = reported-states_of k os c in
      (os, runs, reads, rw (sums, last) (reported_lem k (states_of os c) c))
