-- ===== src/Auth/TokenManager/Renewal.antt =====
-- When the start of src/auth/token_manager.cpp succeeds, and what the renewal keeps.
use finam_tradebot.Prelude.{
  List-cases, ◌⊎◌, ◌≡◌, refl, ◌↔◌, Bool, false, true, Bool-cases, inl, inr, some, List, [], ◌∷◌,
  ◌++◌, arith,
}
use finam_tradebot.Prelude.Text.{Text, is_empty}
use finam_tradebot.Core.Types.{ok}
use finam_tradebot.Risk.RiskManager.{Reply, reply, failure}
use finam_tradebot.Auth.TokenManager.{
  TokenManager, Renewals, make, init, add_accounts, store_jwt, primary_account_id, renew, renew_all,
  run_streams, run_renewal_stream,
}

abbrev pub is_nil : List Text → Bool
is_nil [] = true
is_nil (t ∷ ts) = false

-- What a start that succeeds has got.
pub record IsStarted (auth : Text → Reply Text) (token_details : Text → Reply (List Text))
    (secret : Text) (s s' : TokenManager) : Type 0 where
  pub token : Text
  pub ids : List Text
  pub authorized : auth secret ≡ reply token
  pub detailed : token_details token ≡ reply ids
  pub accounts : s'.account_ids ≡ s.account_ids ++ ids
  pub some_account : is_nil s'.account_ids ≡ false
  pub holds : s'.jwt ≡ token
  pub renews : s'.renewing ≡ some secret

-- A usable manager has a token and an account.
abbrev pub IsUsable : TokenManager → Type 0
IsUsable s = (is_empty s.jwt ≡ false) × (is_nil s.account_ids ≡ false)

pub Reply-cases :
    {A : Type 0} (r : Reply A) → ((msg : Text) × (r ≡ failure msg)) ⊎ ((a : A) × (r ≡ reply a))
Reply-cases (failure msg) = inl (msg, refl)
Reply-cases (reply a) = inr (a, refl)

-- The manager after a start that succeeds.
abbrev pub started : Text → Text → Text → List Text → TokenManager
started secret token account_id others = record {
  jwt = token;
  account_ids = account_id ∷ others;
  renewing = some secret;
}

pub init-started :
    (auth : Text → Reply Text) (token_details : Text → Reply (List Text))
    → (secret token account_id : Text) (others : List Text) → auth secret ≡ reply token
    → token_details token ≡ reply (account_id ∷ others)
    → init auth token_details secret make ≡ (started secret token account_id others, ok tt)
unfolding init add_accounts store_jwt
init-started auth token_details secret token account_id others authorized detailed =
    rw (authorized, init) (ground (arith, detailed))

-- A start succeeds exactly when both calls answer and an account is known afterwards.
pub init_iff :
    (auth : Text → Reply Text) (token_details : Text → Reply (List Text)) (secret : Text)
    → (s : TokenManager)
    → (let (s', result) = init auth token_details secret s in
        (result ≡ ok tt) ↔ IsStarted auth token_details secret s s')
unfolding init add_accounts store_jwt
init_iff auth token_details secret s = (
  λ h. elim (Reply-cases (auth secret)) [
    | inl (msg, e) ↦ absurd (ground (arith, e, h))
    | inr (token, e) ↦ elim (Reply-cases (token_details token)) [
      | inl (msg, f) ↦ absurd (ground (arith, e, f, h))
      | inr (ids, f) ↦ elim (List-cases (s.account_ids ++ ids)) [
        | inl none_known ↦ absurd (ground (arith, e, f, none_known, h))
        | inr (id, more, g) ↦ record {
          token = token;
          ids = ids;
          authorized = e;
          detailed = f;
          accounts = ground (arith, e, f, g);
          some_account = ground (arith, e, f, g);
          holds = ground (arith, e, f, g);
          renews = ground (arith, e, f, g);
        }
      ]
    ]
  ],
  λ started. elim (List-cases (s.account_ids ++ started.ids)) [
    | inl none_known ↦ absurd (ground (arith, started.accounts, started.some_account, none_known))
    | inr (id, more, g) ↦ ground (arith, started.authorized, started.detailed, g)
  ],
)

renew_all-IsUsable :
    (tokens : List Text) (s : TokenManager) → IsUsable s → IsUsable (renew_all tokens s)
unfolding renew_all renew store_jwt
renew_all-IsUsable [] s usable = usable
renew_all-IsUsable (token ∷ tokens) s usable =
    renew_all-IsUsable tokens (renew token s) (ground (arith, usable))

run_streams-IsUsable :
    (xs : List Renewals) (s : TokenManager) → IsUsable s → IsUsable (run_streams xs s)
unfolding run_streams
run_streams-IsUsable [] s usable = usable
run_streams-IsUsable (x ∷ xs) s usable =
    let now = renew_all-IsUsable x.tokens s usable in
    let later = run_streams-IsUsable xs (renew_all x.tokens s) now in
    elim (Bool-cases x.stopped) [ inl stopped ↦ rw stopped now | inr runs ↦ rw runs later ]

-- After a start that succeeds with a token, whatever the renewal delivers, the manager has a token and
-- a primary account.
pub renewal-IsUsable :
    (auth : Text → Reply Text) (token_details : Text → Reply (List Text)) (secret : Text)
    → (xs : List Renewals) (s : TokenManager) → (init auth token_details secret s).1 ≡ ok tt
    → is_empty (init auth token_details secret s).0.jwt ≡ false
    → (let s' = (run_renewal_stream secret xs (init auth token_details secret s).0).0 in
        (is_empty s'.jwt ≡ false) × ((id : Text) × (primary_account_id s' ≡ some id)))
unfolding run_renewal_stream primary_account_id
renewal-IsUsable auth token_details secret xs s done token =
    let started = (init_iff auth token_details secret s).0 done in
    let s₁ = (init auth token_details secret s).0 in
    let (jwt, known) = run_streams-IsUsable xs s₁ (token, started.some_account) in
    elim (List-cases (run_streams xs s₁).account_ids) [
      | inl none_known ↦ absurd (ground (arith, known, none_known))
      | inr (id, more, g) ↦ (jwt, (id, ground (arith, g)))
    ]
