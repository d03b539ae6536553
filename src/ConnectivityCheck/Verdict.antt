-- ===== src/ConnectivityCheck/Verdict.antt =====
-- What the exit code of src/connectivity_check/main.cpp says.

use finam_tradebot.Prelude.{
  ◌≡◌, ◌≢◌, sym, ap, ◌∙◌, ◌↔◌, inl, inr, Bool, true, false, ◌||◌, some, List, [], ◌∷◌, ◌++◌, map,
  arith, if◌then◌else◌,
}
use finam_tradebot.Prelude.Text.{Text, text}
use finam_tradebot.Risk.RiskManager.{Reply, reply, failure}
use finam_tradebot.Auth.TokenManager.{
  TokenManager, primary_account_id, init, store_jwt, add_accounts,
}
use finam_tradebot.Auth.TokenManager.Renewal.{Reply-cases, started}
use finam_tradebot.ConnectivityCheck.{
  AccountRequest, AssetRequest, Remote, check_account, candidates, probe, Ending, exits, probe_all,
  check_all, after_init, main,
}

abbrev answers : {A : Type 0} → Reply A → Bool
answers (reply a) = true
answers (failure msg) = false

abbrev request : Text → Text → Text → AssetRequest
request token account_id sym = record {
  authorization = text "Bearer " ++ token;
  symbol = sym;
  account_id = account_id;
}

-- One of the names is known.
abbrev known : (AssetRequest → Reply (Unit {0})) → Text → Text → List Text → Bool
known get_asset token account_id [] = false
known get_asset token account_id (sym ∷ syms) =
    answers (get_asset (request token account_id sym)) || known get_asset token account_id syms

probe_lem :
    (get_asset : AssetRequest → Reply (Unit {0})) (account_id : Text) (mgr : TokenManager)
    → (syms : List Text) (any_ok : Bool)
    → probe get_asset account_id mgr syms any_ok
      ≡ (any_ok || known get_asset mgr.jwt account_id syms, map (request mgr.jwt account_id) syms)
unfolding probe
probe_lem get_asset account_id mgr [] any_ok = ground arith
probe_lem get_asset account_id mgr (sym ∷ syms) any_ok =
    elim (Reply-cases (get_asset (request mgr.jwt account_id sym))) [
      | inl (msg, e) ↦ rw (e, probe_lem get_asset account_id mgr syms any_ok)
      | inr (u, e) ↦ rw (e, probe_lem get_asset account_id mgr syms true) (ground arith)
    ]

-- All that the program tries has been answered, for the first of the accounts.
pub record IsConnected (secret : Text) (remote : Remote) : Type 0 where
  pub token : Text
  pub account_id : Text
  pub others : List Text
  pub equity : Text
  pub authorized : remote.auth secret ≡ reply token
  pub detailed : remote.token_details token ≡ reply (account_id ∷ others)
  pub account :
      remote.get_account
        (record { authorization = text "Bearer " ++ token; account_id = account_id })
      ≡ reply equity
  pub asset : known remote.get_asset token account_id candidates ≡ true

main-started :
    (secret : Text) (remote : Remote) (token account_id : Text) (others : List Text)
    → remote.auth secret ≡ reply token
    → remote.token_details token ≡ reply (account_id ∷ others)
    → main (some secret) remote ≡ check_all remote (started secret token account_id others)
unfolding main after_init init add_accounts store_jwt
main-started secret remote token account_id others authorized detailed =
    rw (authorized, main, init, detailed, add_accounts)

abbrev verdict : Bool → Ending
verdict any_ok = exits (if any_ok then 0 else 1)

-- What is left of the program when the account is found.
check_all-found :
    (remote : Remote) (secret token account_id equity : Text) (others : List Text)
    → remote.get_account
        (record { authorization = text "Bearer " ++ token; account_id = account_id })
      ≡ reply equity
    → check_all remote (started secret token account_id others) ≡ (
      verdict (known remote.get_asset token account_id candidates),
      map (request token account_id) candidates,
    )
unfolding check_all primary_account_id check_account probe_all
check_all-found remote secret token account_id equity others found = rw (
  found,
  check_all,
  check_account,
  probe_lem remote.get_asset account_id (started secret token account_id others) candidates false,
)

verdict-exits : (any_ok : Bool) → verdict any_ok ≡ exits 0 → any_ok ≡ true
verdict-exits any_ok h = ground (arith, h)

check_all-exits :
    (remote : Remote) (secret token account_id : Text) (others : List Text)
    → remote.auth secret ≡ reply token
    → remote.token_details token ≡ reply (account_id ∷ others)
    → (check_all remote (started secret token account_id others)).0 ≡ exits 0
    → IsConnected secret remote
unfolding check_all primary_account_id check_account
check_all-exits remote secret token account_id others authorized detailed h =
    let req : AccountRequest = record {
      authorization = text "Bearer " ++ token;
      account_id = account_id;
    } in
    elim (Reply-cases (remote.get_account req)) [
      | inl (msg, lost) ↦ absurd (ground (arith, lost, h))
      | inr (equity, found) ↦ record {
        token = token;
        account_id = account_id;
        others = others;
        equity = equity;
        authorized = authorized;
        detailed = detailed;
        account = found;
        asset = verdict-exits _ (
            sym (ap (λ x. x.0) (check_all-found remote secret token account_id equity others found))
            ∙ h);
      }
    ]

main-refused :
    (secret : Text) (remote : Remote) (msg : Text)
    → remote.auth secret ≡ failure msg
    → main (some secret) remote ≡ (exits 1, [])
unfolding main after_init init
main-refused secret remote msg refused = rw (refused, main, init)

main-unknown :
    (secret : Text) (remote : Remote) (token msg : Text)
    → remote.auth secret ≡ reply token
    → remote.token_details token ≡ failure msg
    → main (some secret) remote ≡ (exits 1, [])
unfolding main after_init init
main-unknown secret remote token msg authorized unknown =
    rw (authorized, main, init, unknown, after_init)

main-accountless :
    (secret : Text) (remote : Remote) (token : Text)
    → remote.auth secret ≡ reply token
    → remote.token_details token ≡ reply []
    → main (some secret) remote ≡ (exits 1, [])
unfolding main after_init init add_accounts store_jwt
main-accountless secret remote token authorized bare =
    rw (authorized, main, init, bare, add_accounts)

fails : (x : Ending × List AssetRequest) → x ≡ (exits 1, []) → x.0 ≢ exits 0
fails x e h = ground (arith, e, h)

-- The program ends with 0 exactly if there is a secret, it is answered with a token, the token has an
-- account, the first account is found, and one of the candidates at least is known as an asset.
pub main_iff :
    (secret : Text) (remote : Remote)
    → ((main (some secret) remote).0 ≡ exits 0) ↔ IsConnected secret remote
main_iff secret remote = (
  λ h. elim (Reply-cases (remote.auth secret)) [
    | inl (msg, e) ↦ absurd (fails _ (main-refused secret remote msg e) h)
    | inr (token, e) ↦ elim (Reply-cases (remote.token_details token)) [
      | inl (msg, f) ↦ absurd (fails _ (main-unknown secret remote token msg e f) h)
      | inr ([], f) ↦ absurd (fails _ (main-accountless secret remote token e f) h)
      | inr (account_id ∷ others, f) ↦
          check_all-exits remote secret token account_id others e f
            (sym (ap (λ x. x.0) (main-started secret remote token account_id others e f)) ∙ h)
    ]
  ],
  λ good. rw (
    main-started secret remote good.token good.account_id good.others good.authorized good.detailed,
    check_all-found remote secret good.token good.account_id good.equity good.others good.account,
    good.asset,
  ),
)
