-- ===== src/Auth/TokenManager.antt =====
-- src/auth/token_manager.hpp and .cpp: the token of the session, the accounts, and the stream that
-- renews the token. What the remote calls answer and what the stream delivers are arguments.
pub mod Renewal
use finam_tradebot.Prelude.{Bool, Option, none, some, List, [], ◌∷◌, ◌++◌, map, if◌then◌else◌}
use finam_tradebot.Prelude.Text.{Text, text, is_empty}
use finam_tradebot.Core.Types.{Result, ok, error, rpc_error, invalid_argument}
use finam_tradebot.Risk.RiskManager.{Reply, reply, failure}

-- `renewing` is the secret that the thread of the renewal has got.
pub record TokenManager : Type 0 where
  pub jwt : Text
  pub account_ids : List Text
  pub renewing : Option Text

abbrev pub make : TokenManager
make = record { jwt = []; account_ids = []; renewing = none }

unfoldable pub store_jwt : Text → TokenManager → TokenManager
store_jwt jwt s = record s { jwt = jwt }

-- The accounts are added, and there must be one.
unfoldable pub add_accounts : Text → List Text → TokenManager → TokenManager × Result (Unit {0})
add_accounts secret ids s = elim (s.account_ids ++ ids) [
  | [] ↦ (s, error invalid_argument (text "no account_ids"))
  | (id ∷ more) ↦ (record s { account_ids = id ∷ more; renewing = some secret }, ok tt)
]

-- `auth` is Auth, from the secret to the token, and `token_details` is TokenDetails, from the token to
-- the accounts.
unfoldable pub init :
    (Text → Reply Text)
    → (Text → Reply (List Text))
    → Text
    → TokenManager
    → TokenManager × Result (Unit {0})
init auth token_details secret s = elim (auth secret) [
  | failure msg ↦ (s, error rpc_error msg)
  | reply token ↦ elim (token_details token) [
    | failure msg ↦ (store_jwt token s, error rpc_error msg)
    | reply ids ↦ add_accounts secret ids (store_jwt token s)
  ]
]

-- `none` is the exception of a manager without accounts.
unfoldable pub primary_account_id : TokenManager → Option Text
primary_account_id s = elim (s.account_ids) [ [] ↦ none | (id ∷ more) ↦ some id ]

unfoldable pub secure_zero : Text → Text
secure_zero s = map (λ c. 0) s

-- One renewal stream: the tokens that are read, and the stop flag after them.
pub record Renewals : Type 0 where
  pub tokens : List Text
  pub stopped : Bool

unfoldable pub renew : Text → TokenManager → TokenManager
renew token s = if is_empty token then s else store_jwt token s

unfoldable pub renew_all : List Text → TokenManager → TokenManager
renew_all [] s = s
renew_all (token ∷ tokens) s = renew_all tokens (renew token s)

-- The loop over the streams; the secret is overwritten at its end.
unfoldable pub run_streams : List Renewals → TokenManager → TokenManager
run_streams [] s = s
run_streams (x ∷ xs) s =
    let rest = run_streams xs (renew_all x.tokens s) in
    if x.stopped then renew_all x.tokens s else rest

unfoldable pub run_renewal_stream : Text → List Renewals → TokenManager → TokenManager × Text
run_renewal_stream secret xs s = (run_streams xs s, secure_zero secret)
