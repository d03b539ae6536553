-- ===== src/MarketData/Streams/Sessions.antt =====
-- What holds of every stream of a subscription, and that its loop ends.
use finam_tradebot.Prelude.{
  ℕ, ◌⊎◌, ◌≡◌, Option-cases, refl, ◌<◌, List, [], ◌∷◌, true, Bool-cases, inl, inr, Option, some,
}
use finam_tradebot.Double.{Double}
use finam_tradebot.Core.Backoff
use finam_tradebot.Core.Backoff.{Backoff, Waited, wait, after_wait}
use finam_tradebot.Core.Backoff.Wait.{wait_lem, wait_cfg, wait-woken}
use finam_tradebot.MarketData.Streams.{Session, feed, run}

-- The flag ends the loop: it is set after the stream, or in a round of the wait.
abbrev pub Ends : {M : Type 0} → Session M → Type 0
Ends x = (x.stopped ≡ true) ⊎ ((i : ℕ) × (x.stop_reads i ≡ true))

-- The calls in each stream have a property, up to one at which the flag ends the loop.
abbrev pub AllSessions :
    {M O : Type 0} → (Session M → List O → Type 0) → List (Session M) → List (List O) → Type 0
AllSessions P [] [] = Unit
AllSessions P [] (out ∷ outs) = ⊥
AllSessions P (x ∷ xs) [] = ⊥
AllSessions P (x ∷ xs) (out ∷ outs) = P x out × ((Ends x × (outs ≡ [])) ⊎ AllSessions P xs outs)

module _ {W S M O : Type 0} ⦃d : Double W⦄ (step : M → S → Option (S × List O)) where
  pub feed_cfg : (ms : List M) (bo : Backoff W) (s : S) → (feed step ms bo s).backoff.cfg ≡ bo.cfg
  unfolding feed Backoff.reset
  feed_cfg [] bo s = refl
  feed_cfg (m ∷ ms) bo s = elim (Option-cases (step m s)) [
    | inl broken ↦ rw (broken, feed)
    | inr ((s', out), e) ↦ rw (e, feed) (feed_cfg ms (Backoff.reset bo) s')
  ]

  -- The loop ends, if a wait sleeps at all, and whatever holds of the calls of a stream that starts in
  -- a state reached holds of all of them.
  pub run-AllSessions :
      (lost : S → S)
      → (draw : W → W → W) → (P : Session M → List O → Type 0) → (Start : S → Type 0)
      → ((s : S) → Start (lost s))
      → ((x : Session M) (bo : Backoff W) (s : S) → Start s → P x (feed step x.messages bo s).calls)
      → (xs : List (Session M)) (bo : Backoff W) (s : S) → 0 < bo.cfg.tick
      → Start s
      → (outs : List (List O)) × (run step lost draw xs bo s ≡ some outs) × AllSessions P xs outs
  unfolding run
  run-AllSessions lost draw P Start again holds [] bo s tick start = ([], refl, tt)
  run-AllSessions lost draw P Start again holds (x ∷ xs) bo s tick start =
      let f = feed step x.messages bo s in
      let now = holds x bo s start in
      elim (Bool-cases x.stopped) [
        | inl stopped ↦ (f.calls ∷ [], rw stopped, (now, inl (inl stopped, refl)))
        | inr runs ↦
            let ticks : 0 < f.backoff.cfg.tick = rw (feed_cfg x.messages bo s) tick in
            let (bo', w, e, _, _) = wait_lem draw x.stop_reads f.backoff ticks in
            elim (Bool-cases w.completed) [
              | inl done ↦
                  let ticks' : 0 < bo'.cfg.tick =
                    rw (wait_cfg draw x.stop_reads f.backoff bo' w e) ticks in
                  let (outs, later, all) =
                    run-AllSessions lost draw P Start again holds xs bo' (lost f.state) ticks'
                      (again f.state) in
                  (f.calls ∷ outs, rw (runs, e, run, done, later), (now, inr all))
              | inr woken ↦ (
                f.calls ∷ [],
                rw (runs, e, run, woken),
                (now, inl (inr (wait-woken draw x.stop_reads f.backoff bo' w e woken), refl)),
              )
            ]
      ]
