-- ===== src/Core/SpscQueue/Ring.antt =====
-- The ring of src/core/spsc_queue.hpp keeps its indices inside, and each call is one of a queue with a
-- bound.
use Prim.Native.Nat.{bit_and}
use finam_tradebot.Prelude.{
  ℕ, zero, suc, ◌+◌, ◌-◌, ◌^◌, ◌<◌, ◌≡◌, ◌≢◌, refl, sym, ap, ◌∙◌, inl, inr, Bool, true, false,
  Bool-cases, Option, none, some, List, [], ◌∷◌, ◌++◌, ◌==◌, ltb, if◌then◌else◌, arith, length,
  length-set, length-replicate, set, get_or, get_or-set_self,
}
use finam_tradebot.Prelude.Bits.{mask_next, pow-positive}
use finam_tradebot.Core.SpscQueue.{SpscQueue, make, push, find_slot, publish, pop, mask}
use finam_tradebot.Core.SpscQueue.Window.{
  ℕ-cases, next_index, distance, distance-next, next_index-bound, distance-apart, distance-zero,
  distance-full, distance-grows, distance-room, at_most, length-window, window-set, window-last,
  contents,
}

set-set : {A : Type 0} (xs : List A) (i : ℕ) (v w : A) → set (set xs i v) i w ≡ set xs i w
set-set [] i v w = refl
set-set (x ∷ xs) zero v w = refl
set-set (x ∷ xs) (suc i) v w = ap (λ rest. x ∷ rest) (set-set xs i v w)

module _ {T : Type 0} where
  -- A ring of 2^k slots, with its indices inside.
  pub record IsRing (k : ℕ) (q : SpscQueue T) : Type 0 where
    pub power : q.size ≡ 2 ^ k
    pub storage : length q.buffer ≡ q.size
    pub head_in : q.head < q.size
    pub tail_in : q.tail < q.size

  -- A queue with a bound.
  abbrev pub fifo_push : ℕ → T → List T → List T × Bool
  fifo_push bound x xs = if ltb (length xs) bound then (xs ++ (x ∷ []), true) else (xs, false)

  abbrev pub fifo_pop : List T → List T × Option T
  fifo_pop [] = ([], none)
  fifo_pop (x ∷ xs) = (xs, some x)

  next_lem :
      (k : ℕ) (q : SpscQueue T) (i : ℕ)
      → IsRing k q
      → i < q.size
      → bit_and (i + 1) (mask q) ≡ next_index q.size i
  next_lem k q i ring p = rw ring.power (mask_next k i (rw (sym ring.power) p))

  find_slot-full :
      (k : ℕ) (q : SpscQueue T)
      → IsRing k q
      → next_index q.size q.head ≡ q.tail
      → find_slot q ≡ none
  unfolding find_slot
  find_slot-full k q ring full = rw (next_lem k q q.head ring ring.head_in) (ground (arith, full))

  find_slot-room :
      (k : ℕ) (q : SpscQueue T)
      → IsRing k q
      → next_index q.size q.head ≢ q.tail
      → find_slot q ≡ some q.head
  unfolding find_slot
  find_slot-room k q ring room = rw (next_lem k q q.head ring ring.head_in) (ground (arith, room))

  pub publish_lem :
      (k : ℕ) (x : T) (q : SpscQueue T)
      → IsRing k q
      → publish x q.head q
        ≡ record q { buffer = set q.buffer q.head x; head = next_index q.size q.head }
  unfolding publish
  publish_lem k x q ring = rw (next_lem k q q.head ring ring.head_in)

  push-full :
      (k : ℕ) (x : T) (q : SpscQueue T)
      → IsRing k q
      → next_index q.size q.head ≡ q.tail
      → push x q ≡ (q, false)
  unfolding push
  push-full k x q ring full = rw (find_slot-full k q ring full, push)

  push-room :
      (k : ℕ) (x : T) (q : SpscQueue T)
      → IsRing k q
      → next_index q.size q.head ≢ q.tail
      → push x q
        ≡ (record q { buffer = set q.buffer q.head x; head = next_index q.size q.head }, true)
  unfolding push
  push-room k x q ring room = rw (find_slot-room k q ring room, publish_lem k x q ring, push)

  pub push-IsRing : (k : ℕ) (x : T) (q : SpscQueue T) → IsRing k q → IsRing k (push x q).0
  push-IsRing k x q ring = elim (Bool-cases (next_index q.size q.head == q.tail)) [
    | inl full ↦ rw (push-full k x q ring (ground arith)) ring
    | inr room ↦ rw (push-room k x q ring (λ e. absurd (ground arith))) (record {
      power = ring.power;
      storage = length-set q.buffer q.head x ∙ ring.storage;
      head_in = next_index-bound q.size q.head ring.head_in;
      tail_in = ring.tail_in;
    })
  ]

  pub contents-push :
      (k : ℕ) (x : T) (q : SpscQueue T)
      → IsRing k q
      → next_index q.size q.head ≢ q.tail
      → contents (record q { buffer = set q.buffer q.head x; head = next_index q.size q.head })
        ≡ contents q ++ (x ∷ [])
  contents-push k x q ring room =
      let c = distance q.size q.tail q.head in
      let new = set q.buffer q.head x in
      let grown = distance-grows q.size q.head q.tail ring.head_in ring.tail_in room in
      let last = window-last new q.size q.default q.tail q.head c ring.tail_in ring.head_in refl in
      let old =
        window-set q.buffer q.size q.default x q.tail q.head c ring.tail_in ring.head_in
          (at_most c) in
      let item = get_or-set_self q.buffer q.head x q.default (rw ring.storage ring.head_in) in
      rw (grown, last, old, item)

  -- `push` is the push of a queue bounded by one less than the ring's size.
  pub push_lem :
      (k : ℕ) (x : T) (q : SpscQueue T)
      → IsRing k q
      → (contents (push x q).0, (push x q).1) ≡ fifo_push (2 ^ k - 1) x (contents q)
  push_lem k x q ring =
      let c = distance q.size q.tail q.head in
      let len = length-window q.buffer q.size q.default q.tail c in
      elim (Bool-cases (next_index q.size q.head == q.tail)) [
        | inl full ↦
            let e : next_index q.size q.head ≡ q.tail = ground arith in
            rw (push-full k x q ring e, len)
              (ground (arith, distance-full q.size q.head q.tail ring.head_in ring.tail_in e))
        | inr room ↦
            let e : next_index q.size q.head ≢ q.tail = λ e. absurd (ground arith) in
            rw (push-room k x q ring e, len, contents-push k x q ring e)
              (ground (arith, distance-room q.size q.head q.tail ring.head_in ring.tail_in e))
      ]

  pub publish-publish :
      (slot : ℕ) (x y : T) (q : SpscQueue T) → publish y slot (publish x slot q) ≡ publish y slot q
  unfolding publish
  publish-publish slot x y q = rw (set-set q.buffer slot x y)

  pub slot_found :
      (k slot : ℕ) (q : SpscQueue T)
      → IsRing k q
      → find_slot q ≡ some slot
      → (slot ≡ q.head) × (next_index q.size q.head ≢ q.tail)
  unfolding find_slot
  slot_found k slot q ring found =
      let next = next_lem k q q.head ring ring.head_in in
      (ground (arith, next), λ e. absurd (ground (arith, next, e)))

  pop-some :
      (k : ℕ) (q : SpscQueue T)
      → IsRing k q
      → q.tail ≢ q.head
      → pop q
        ≡ (record q { tail = next_index q.size q.tail }, some (get_or q.buffer q.tail q.default))
  unfolding pop
  pop-some k q ring some_left =
      rw (next_lem k q q.tail ring ring.tail_in) (ground (arith, some_left))

  pop-none : (q : SpscQueue T) → q.tail ≡ q.head → pop q ≡ (q, none)
  unfolding pop
  pop-none q e = ground (arith, e)

  pub pop-IsRing : (k : ℕ) (q : SpscQueue T) → IsRing k q → IsRing k (pop q).0
  pop-IsRing k q ring = elim (Bool-cases (q.tail == q.head)) [
    | inl e ↦ rw (pop-none q (ground arith)) ring
    | inr apart ↦ rw (pop-some k q ring (λ e. absurd (ground arith))) (record {
      power = ring.power;
      storage = ring.storage;
      head_in = ring.head_in;
      tail_in = next_index-bound q.size q.tail ring.tail_in;
    })
  ]

  -- `pop` is the pop of a queue.
  pub pop_lem :
      (k : ℕ) (q : SpscQueue T)
      → IsRing k q
      → (contents (pop q).0, (pop q).1) ≡ fifo_pop (contents q)
  pop_lem k q ring = elim (ℕ-cases (distance q.size q.tail q.head)) [
    | inl e ↦
        let same = distance-zero q.size q.tail q.head ring.tail_in ring.head_in e in
        rw (pop-none q same, e)
    | inr (c, e) ↦
        let apart = distance-apart q.size q.tail q.head c ring.tail_in (rw e (at_most (suc c))) in
        let left = distance-next q.size q.tail q.head c ring.tail_in ring.head_in e in
        rw (pop-some k q ring apart, e, left)
  ]

  pub make-IsRing : (k : ℕ) (d : T) → IsRing k (make (2 ^ k) d)
  unfolding make
  make-IsRing k d = record {
    power = refl;
    storage = length-replicate (2 ^ k) d;
    head_in = pow-positive k;
    tail_in = pow-positive k;
  }
