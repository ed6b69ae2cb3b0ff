-- ===== src/Witness/Funds.antt =====
-- Examples for transfers and fees on the sample chain.
use falari.Prelude.{◌+◌, ◌≡◌, ◌≢◌, ◌⊎◌, refl, List, [], ◌∷◌, some, ok, arith, eq_iff, true}
use falari.Arith.{add64, transfer_total_cost}
use falari.Dict.{has}
use falari.Dict.Laws.{str_ne-of-false}
use falari.Env.{normalize_address}
use falari.State.{State}
use falari.Accounts.{account_at, account_locked}
use falari.Accounts.Funds.{holdings, circulating, IsKeyed}
use falari.Transfer.{TransferRequest, move_funds, apply_transfer, apply_signed_transfer}
use falari.Transfer.Conservation.{transfer_moves_funds}
use falari.Transfer.Once.{TransferStep, run, transfer_once}
use falari.FeeMarket.{Transaction, charge_transaction_fee, move_fee, mark_charged, user_tx}
use falari.FeeMarket.Charging.{charge_transaction_fee_moves}
use falari.Fixtures.{env, chain}

abbrev payment : TransferRequest
payment = record {
  from = "0xab";
  to = "bob";
  amount = 30;
  nonce = 7;
  fee = 100_000_000;
  public_key = "";
  signature = "sig";
}

abbrev paid : State
paid = move_funds env payment "key" chain

paid_accepted : apply_transfer env payment (some "key") true chain ≡ ok paid
unfolding apply_transfer apply_signed_transfer normalize_address account_locked account_at
    transfer_total_cost
paid_accepted = refl

transfer_moves_funds_example :
    (circulating paid.accounts ≡ circulating chain.accounts)
    × ((account_at paid.accounts "0xAB").balance + 30 ≡ (account_at chain.accounts "0xAB").balance)
    × ((account_at paid.accounts "bob").balance ≡ (account_at chain.accounts "bob").balance + 30)
    × ((account_at paid.accounts "0xAB").nonce ≡ add64 7 1)
    × (account_at paid.accounts "carol" ≡ account_at chain.accounts "carol")
unfolding normalize_address holdings
transfer_moves_funds_example =
    transfer_moves_funds env payment (some "key") true chain paid "carol" (omega arith)
      (omega arith) (omega arith) (str_ne-of-false "carol" "0xAB" refl)
      (str_ne-of-false "carol" "bob" refl) paid_accepted

-- The same payment again, and one of another amount.
abbrev later : List TransferStep
later =
    record { request = payment; recovered = some "key"; signed = true }
    ∷ record {
      request = record payment { nonce = 8; amount = 5 };
      recovered = some "key";
      signed = true;
    }
    ∷ []

transfer_once_example : apply_transfer env payment (some "key") true (run env later paid) ≢ ok paid
transfer_once_example =
    transfer_once env payment (some "key") (some "key") true true later chain paid paid
      (omega arith) paid_accepted

chain-IsKeyed : IsKeyed chain.accounts
unfolding account_at
chain-IsKeyed k = ground (arith, eq_iff "0xAB" k)

abbrev call : Transaction
call = record { tx_id = "tx"; tx_type = user_tx "call"; from = "0xab"; fee = 9 }

abbrev charged : State
charged = mark_charged env "tx" (move_fee env "0xAB" "producer" 9 chain)

first_charge : charge_transaction_fee env call "producer" chain ≡ ok charged
unfolding charge_transaction_fee normalize_address account_locked account_at
first_charge = refl

charge_transaction_fee_moves_example :
    (circulating charged.accounts ≡ circulating chain.accounts)
    × ((account_at charged.accounts "0xAB").balance + 9
        ≡ (account_at chain.accounts "0xAB").balance)
    × ((account_at charged.accounts "producer").balance
        ≡ (account_at chain.accounts "producer").balance + 9)
    × (account_at charged.accounts "carol" ≡ account_at chain.accounts "carol")
    × ((call.fee ≡ 0) ⊎ (has "tx" charged.fee_charged_txs ≡ true))
unfolding holdings normalize_address
charge_transaction_fee_moves_example =
    charge_transaction_fee_moves env call "producer" "carol" chain charged chain-IsKeyed
      (omega arith) (str_ne-of-false "carol" "0xAB" refl) (str_ne-of-false "carol" "producer" refl)
      first_charge
