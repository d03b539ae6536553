-- ===== src/Core/HealthServer/Loop.antt =====
-- serve_loop of src/core/health_server.hpp. What the calls of the sockets return is an argument.
use mathlib.Core.List.{append-nil, append_assoc}
use finam_tradebot.Prelude.{
  ℕ, ◌+◌, ◌-◌, ◌≡◌, Bool, true, false, Option, List, [], ◌∷◌, ◌++◌, if◌then◌else◌, arith,
}
use finam_tradebot.Prelude.Text.{Text}
use finam_tradebot.Double.{Double}
use finam_tradebot.Core.HealthServer.{HealthStatus, handle_request}

-- What `accept` gives. From a silent client nothing comes, so that `recv` waits; the others have what
-- they sent, which is empty if they hung up, and the status that the provider would give then.
pub data Accepted (W : Type 0) : Type 0 where
  refused silent : Accepted W
  client : Text → HealthStatus W → Accepted W

-- One round of the loop: the stop flag is read as set, `select` finds nothing, or it finds a client.
pub data Round (W : Type 0) : Type 0 where
  stopping quiet : Round W
  readable : Accepted W → Round W

-- `replies` has the answer to each client, and `returned` says that the loop is over.
pub record Served : Type 0 where
  pub replies : List (Option Text)
  pub open_fds : ℕ
  pub returned : Bool

abbrev pub opened : Served → Served
opened s = record s { open_fds = s.open_fds + 1 }

abbrev pub closed : Served → Served
closed s = record s { open_fds = s.open_fds - 1 }

abbrev pub idle : Served
idle = record { replies = []; open_fds = 0; returned = false }

one_client : (n : ℕ) → n + 1 - 1 ≡ n
one_client n = omega arith

module _ {W : Type 0} ⦃d : Double W⦄ where
  unfoldable pub answer : HealthStatus W → Text → Served → Served
  answer st sent s = record s { replies = s.replies ++ (handle_request st sent ∷ []) }

  unfoldable pub serve_rounds : List (Round W) → Served → Served
  serve_rounds [] s = s
  serve_rounds (stopping ∷ rs) s = record (closed s) { returned = true }
  serve_rounds (quiet ∷ rs) s = serve_rounds rs s
  serve_rounds (readable refused ∷ rs) s = serve_rounds rs s
  serve_rounds (readable silent ∷ rs) s = opened s
  serve_rounds (readable (client sent st) ∷ rs) s =
      serve_rounds rs (closed (answer st sent (opened s)))

  -- The Booleans say that `socket` and `bind` succeed.
  unfoldable pub serve_loop : Bool → Bool → List (Round W) → Served
  serve_loop socket_ok bind_ok rs =
      if socket_ok
      then (if bind_ok
          then serve_rounds rs (opened idle)
          else record (closed (opened idle)) { returned = true })
      else record idle { returned = true }

  -- The rounds that end.
  abbrev pub AllPass : List (Round W) → Type 0
  AllPass [] = Unit
  AllPass (stopping ∷ rs) = ⊥
  AllPass (readable silent ∷ rs) = ⊥
  AllPass (quiet ∷ rs) = AllPass rs
  AllPass (readable refused ∷ rs) = AllPass rs
  AllPass (readable (client sent st) ∷ rs) = AllPass rs

  -- What the clients are owed.
  abbrev pub replies_to : List (Round W) → List (Option Text)
  replies_to [] = []
  replies_to (readable (client sent st) ∷ rs) = handle_request st sent ∷ replies_to rs
  replies_to (stopping ∷ rs) = replies_to rs
  replies_to (quiet ∷ rs) = replies_to rs
  replies_to (readable refused ∷ rs) = replies_to rs
  replies_to (readable silent ∷ rs) = replies_to rs

  serve_rounds-append :
      (rs more : List (Round W)) (s : Served)
      → AllPass rs
      → serve_rounds (rs ++ more) s
        ≡ serve_rounds more (record s { replies = s.replies ++ replies_to rs })
  unfolding serve_rounds answer
  serve_rounds-append [] more s pass = rw (append-nil s.replies)
  serve_rounds-append (stopping ∷ rs) more s pass = absurd pass
  serve_rounds-append (quiet ∷ rs) more s pass = serve_rounds-append rs more s pass
  serve_rounds-append (readable refused ∷ rs) more s pass = serve_rounds-append rs more s pass
  serve_rounds-append (readable silent ∷ rs) more s pass = absurd pass
  serve_rounds-append (readable (client sent st) ∷ rs) more s pass = rw (
    serve_rounds-append rs more (closed (answer st sent (opened s))) pass,
    append_assoc s.replies (handle_request st sent ∷ []) (replies_to rs),
    one_client s.open_fds,
  )

  -- Let the socket be bound, and let every client so far have sent something or hung up. Each of them
  -- has got the answer of handle_request, in their order. If the stop flag is seen next, the loop ends
  -- and leaves no descriptor open; if a client comes next that stays silent, the loop does not end,
  -- whatever the stop flag is and whoever connects afterwards, and two descriptors stay open.
  pub serve_loop_lem :
      (before after : List (Round W))
      → AllPass before
      → (serve_loop true true (before ++ (stopping ∷ after))
          ≡ record { replies = replies_to before; open_fds = 0; returned = true })
        × (serve_loop true true (before ++ (readable silent ∷ after))
            ≡ record { replies = replies_to before; open_fds = 2; returned = false })
  unfolding serve_loop serve_rounds
  serve_loop_lem before after pass = (
    serve_rounds-append before (stopping ∷ after) (opened idle) pass,
    serve_rounds-append before (readable silent ∷ after) (opened idle) pass,
  )
