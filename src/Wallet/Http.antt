-- ===== src/Wallet/Http.antt =====
-- services/wallet_service/handler/http: what each endpoint answers. Reading JSON is gin's: a request
-- comes as its decoded body, or none where it is malformed.
use inno_taxi.Base.{ℕ, zero, String, Option, none, some, Bool, true, false, ◌||◌, List, map}
use inno_taxi.Base.Int.{ℤ, pos}
use inno_taxi.Base.Action.{Result, ok, err}
use inno_taxi.Base.Tests.{◌==◌, if◌then◌else◌}
use inno_taxi.Wallet.Entity.{
  WalletError, wallet_already_exists, wallet_not_found, invalid_amount, insufficient_funds, wrap,
  Wallet, Transaction,
}
use inno_taxi.Wallet.Store.{Env, World}
use inno_taxi.Wallet.Service.{create_wallet, get_wallet, charge, refund, list_recent_transactions}

pub record WalletResp : Type 0 where
  pub id : String
  pub user_id : String
  pub balance_minor_units : ℤ

pub record TransactionResp : Type 0 where
  pub id : String
  pub wallet_id : String
  pub type : String
  pub amount_minor_units : ℤ
  pub reference_id : String

abbrev wallet_resp_from : Wallet → WalletResp
wallet_resp_from x = record {
  id = x.id;
  user_id = x.user_id;
  balance_minor_units = x.balance_minor_units;
}

abbrev transaction_resp_from : Transaction → TransactionResp
transaction_resp_from x = record {
  id = x.id;
  wallet_id = x.wallet_id;
  type = x.type;
  amount_minor_units = x.amount_minor_units;
  reference_id = x.reference_id;
}

-- `message` is `err.Error()`; an internal error is not told.
pub data Body : Type 0 where
  malformed internal_error : Body
  message : WalletError → Body
  wallet_body : WalletResp → Body
  transaction_body : TransactionResp → Body
  transactions_body : List TransactionResp → Body

pub record Response : Type 0 where
  pub status : ℕ
  pub body : Body

abbrev answer : ℕ → Body → Response
answer s b = record { status = s; body = b }

-- The error at the end of a chain, at which `errors.Is` looks.
abbrev pub root : WalletError → WalletError
root (wrap m x) = root x
root x = x

-- The body of `chargeReq` and of `refundReq`.
pub record TransactionReq : Type 0 where
  pub amount_minor_units : ℤ
  pub reference_id : String

abbrev pub is_zero_amount : ℤ → Bool
is_zero_amount (pos zero) = true
is_zero_amount _ = false

-- `binding:"required"` refuses zero values.
abbrev pub bind : Option TransactionReq → Option TransactionReq
bind none = none
bind (some q) = if is_zero_amount q.amount_minor_units || q.reference_id == "" then none else some q

abbrev pub bind_user : Option String → Option String
bind_user none = none
bind_user (some u) = if u == "" then none else some u

-- The `switch` of `Charge`, that of `Refund`, and the tests of the others.
abbrev pub charge_failure : WalletError → WalletError → Response
charge_failure x wallet_not_found = answer 404 (message x)
charge_failure x invalid_amount = answer 422 (message x)
charge_failure x insufficient_funds = answer 402 (message x)
charge_failure x _ = answer 500 internal_error

abbrev pub refund_failure : WalletError → WalletError → Response
refund_failure x wallet_not_found = answer 404 (message x)
refund_failure x invalid_amount = answer 422 (message x)
refund_failure x _ = answer 500 internal_error

abbrev create_failure : WalletError → WalletError → Response
create_failure x wallet_already_exists = answer 422 (message x)
create_failure x _ = answer 500 internal_error

abbrev read_failure : WalletError → WalletError → Response
read_failure x wallet_not_found = answer 404 (message x)
read_failure x _ = answer 500 internal_error

abbrev recorded : Transaction → Bool → Response
recorded r true = answer 201 (transaction_body (transaction_resp_from r))
recorded r false = answer 200 (transaction_body (transaction_resp_from r))

abbrev pub charge_response : Result WalletError (Transaction × Bool) → Response
charge_response (ok (r, created)) = recorded r created
charge_response (err x) = charge_failure x (root x)

abbrev pub refund_response : Result WalletError (Transaction × Bool) → Response
refund_response (ok (r, created)) = recorded r created
refund_response (err x) = refund_failure x (root x)

abbrev create_response : Result WalletError Wallet → Response
create_response (ok x) = answer 201 (wallet_body (wallet_resp_from x))
create_response (err x) = create_failure x (root x)

abbrev get_response : Result WalletError Wallet → Response
get_response (ok x) = answer 200 (wallet_body (wallet_resp_from x))
get_response (err x) = read_failure x (root x)

abbrev list_response : Result WalletError (List Transaction) → Response
list_response (ok xs) = answer 200 (transactions_body (map transaction_resp_from xs))
list_response (err x) = read_failure x (root x)

module _ (e : Env) where
  unfoldable pub post_charge : String → Option TransactionReq → World → Response × World
  post_charge u req w = elim (bind req) [
    | none ↦ (answer 400 malformed, w)
    | some q ↦
        (let (r, w') = charge e u q.amount_minor_units q.reference_id w in (charge_response r, w'))
  ]

  unfoldable pub post_refund : String → Option TransactionReq → World → Response × World
  post_refund u req w = elim (bind req) [
    | none ↦ (answer 400 malformed, w)
    | some q ↦
        (let (r, w') = refund e u q.amount_minor_units q.reference_id w in (refund_response r, w'))
  ]

  unfoldable pub post_wallet : Option String → World → Response × World
  post_wallet req w = elim (bind_user req) [
    | none ↦ (answer 400 malformed, w)
    | some u ↦ (let (r, w') = create_wallet e u w in (create_response r, w'))
  ]

  unfoldable pub show_wallet : String → World → Response × World
  show_wallet u w = let (r, w') = get_wallet e u w in (get_response r, w')

  unfoldable pub show_transactions : String → World → Response × World
  show_transactions u w = let (r, w') = list_recent_transactions e u w in (list_response r, w')
