-- ===== src/ConnectivityCheck.antt =====
-- src/connectivity_check/main.cpp: a program that tries the token, the account and the names that the
-- instruments may have. What the remote calls answer is an argument. That the token may be renewed
-- while the program runs is left out.
pub mod Verdict
use finam_tradebot.Prelude.{
  ℕ, Bool, true, false, Option, none, some, List, [], ◌∷◌, ◌++◌, if◌then◌else◌,
}
use finam_tradebot.Prelude.Text.{Text, text}
use finam_tradebot.Core.Types.{Result, ok, err, error, rpc_error}
use finam_tradebot.Risk.RiskManager.{Reply, reply, failure}
use finam_tradebot.Auth.TokenManager
use finam_tradebot.Auth.TokenManager.{TokenManager, primary_account_id}

-- A call of GetAccount or, with a symbol, of GetAsset.
pub record AccountRequest : Type 0 where
  pub authorization : Text
  pub account_id : Text

pub record AssetRequest : Type 0 where
  pub authorization : Text
  pub symbol : Text
  pub account_id : Text

-- What the program asks. `get_account` answers with the equity.
pub record Remote : Type 0 where
  pub auth : Text → Reply Text
  pub token_details : Text → Reply (List Text)
  pub get_account : AccountRequest → Reply Text
  pub get_asset : AssetRequest → Reply (Unit {0})

abbrev pub bearer : TokenManager → Text
bearer mgr = text "Bearer " ++ mgr.jwt

unfoldable pub check_account :
    (AccountRequest → Reply Text) → Text → TokenManager → Result (Unit {0})
check_account get_account account_id mgr =
    elim (get_account (record { authorization = bearer mgr; account_id = account_id })) [
      | failure msg ↦ error rpc_error msg
      | reply equity ↦ ok tt
    ]

unfoldable pub candidates : List Text
candidates =
    text "SiM6@RTSX"
    ∷ text "SIM6@RTSX"
    ∷ text "SiM26@RTSX"
    ∷ text "SIM26@RTSX"
    ∷ text "Si-6.26@RTSX"
    ∷ text "SiM6@RUSX"
    ∷ text "SIM6@RUSX"
    ∷ text "RIM6@RTSX"
    ∷ text "RITM6@RTSX"
    ∷ text "RiM6@RTSX"
    ∷ text "GDM6@RTSX"
    ∷ text "GOLDM6@RTSX"
    ∷ text "MXM6@RTSX"
    ∷ text "BRM6@RTSX"
    ∷ text "SiM6@MISX"
    ∷ []

-- The loop over the candidates: whether any has been found, and what has been asked.
unfoldable pub probe :
    (AssetRequest → Reply (Unit {0}))
    → Text
    → TokenManager
    → List Text
    → Bool
    → Bool × List AssetRequest
probe get_asset account_id mgr [] any_ok = (any_ok, [])
probe get_asset account_id mgr (sym ∷ syms) any_ok =
    let req : AssetRequest = record {
      authorization = bearer mgr;
      symbol = sym;
      account_id = account_id;
    } in
    let any_now : Bool = elim (get_asset req) [ failure msg ↦ any_ok | reply asset ↦ true ] in
    let (any, asked) = probe get_asset account_id mgr syms any_now in (any, req ∷ asked)

-- How the program ends: with an exit code, or with an exception that nobody catches.
pub data Ending : Type 0 where
  exits : ℕ → Ending
  aborts : Ending

-- After the account has been looked up.
unfoldable pub probe_all : Remote → Text → TokenManager → Ending × List AssetRequest
probe_all remote account_id mgr =
    let (any_ok, asked) = probe remote.get_asset account_id mgr candidates false in
    (exits (if any_ok then 0 else 1), asked)

-- After the manager has been started.
unfoldable pub check_all : Remote → TokenManager → Ending × List AssetRequest
check_all remote mgr = elim (primary_account_id mgr) [
  | none ↦ (aborts, [])
  | some account_id ↦ elim (check_account remote.get_account account_id mgr) [
    | err e ↦ (exits 1, [])
    | ok u ↦ probe_all remote account_id mgr
  ]
]

-- After the call of `init`.
unfoldable pub after_init : Remote → TokenManager × Result (Unit {0}) → Ending × List AssetRequest
after_init remote (mgr, err e) = (exits 1, [])
after_init remote (mgr, ok u) = check_all remote mgr

-- `main`; the secret comes from the environment.
unfoldable pub main : Option Text → Remote → Ending × List AssetRequest
main none remote = (exits 1, [])
main (some secret) remote =
    after_init remote (TokenManager.init remote.auth remote.token_details secret TokenManager.make)
