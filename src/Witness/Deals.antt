-- ===== src/Witness/Deals.antt =====
-- Examples for the escrow of deals and for permanent funds: a user with a finite deal, halfway
-- through its time, and a permanent one.
use falari.Prelude.{ℕ, ◌-◌, some, ◌+◌, ◌≤◌, ◌≡◌, refl, true, false, ok, [], ◌∷◌, arith}
use falari.Arith.{mul_div_uint64}
use falari.Dict.{lookup}
use falari.Dict.Laws.{str_ne-of-false}
use falari.Types.{Intent, finalized, PermanentStorageFund}
use falari.Env.{normalize_address}
use falari.State.{State}
use falari.Accounts.{account_locked, account_at, verify_account_request}
use falari.Accounts.Funds.{holdings, circulating}
use falari.Escrow.Bookings.{record_storage_fee_burn}
use falari.Escrow.{
  spend_finite_storage_fee, finite_payment, remaining_intent_escrow, finite_deal_escrow_available,
  finite_deal_escrow_accrued, accrued_since, ensure_deal_escrow, synced_escrow, set_times,
  escrow_at, first_non_zero,
}
use falari.Escrow.Spending.{IsCovered, spend_finite-IsCovered, burn_booked_twice}
use falari.PermanentFund.{
  ensure_permanent_fund, topped_fund, topup_writes, top_up_permanent_fund,
  apply_permanent_fund_top_up, TopupRequest, TopupPayload,
}
use falari.PermanentFund.Payouts.{
  spend_from_deal, pay_permanent_fund_subsidy, spend_permanent_fund, close_permanent_fund,
  pay_reward,
}
use falari.PermanentFund.Balance.{AllFunded, steps-AllFunded, here, next, spend, close}
use falari.PermanentFund.Payable.{payable_storage_reward}
use falari.PermanentFund.Payable.Foreseen.{vest_paid}
use falari.PermanentFund.Payable.Paid.{payable_is_paid}
use falari.PermanentFund.Payments.{money, pay_reward-money}
use falari.PermanentFund.Topup.{top_up_replayed}
use falari.Pricing.{redundant_storage_bytes, compute_storage_fee, ceil_big_div}
use falari.Renewal.{auto_renew_deals, auto_renewable, estimate_renewal_price, renewal_duration}
use falari.Renewal.Money.{auto_renew_deals-circulating}
use falari.Fixtures.{plain, chain, funded}

abbrev finite : Intent
finite = record {
  intent_id = "d1";
  user = "0xa1";
  file_name = "f";
  file_size = 10;
  duration = 100;
  locked_fee = 1000;
  paid_fee = 100;
  refunded_fee = 0;
  burned_fee = 0;
  status = finalized;
  storage_status = "active";
  expires_at_unix = 1100;
  created_at = 1000;
  updated_at = 1000;
  permanent_fund_balance = 0;
  permanent_fund_paid = 0;
  burn_deferred = false;
  erasure = record { data_shards = 4; parity_shards = 2 };
  renewable = true;
  auto_renew = true;
}

abbrev permanent : Intent
permanent = record finite { intent_id = "p1"; duration = 0; expires_at_unix = 0 }

abbrev deals : State
deals = record chain {
  accounts =
      ("0xa1", record funded { address = "0xa1"; balance = 5000; locked_storage = 1800 }) ∷ [];
  intents = ("d1", finite) ∷ ("p1", permanent) ∷ [];
}

abbrev spent : State × Intent × ℕ
spent = spend_finite_storage_fee plain finite 300 1050 deals

spent_all : spent.2 ≡ 300
unfolding spend_finite_storage_fee finite_payment remaining_intent_escrow
    finite_deal_escrow_available finite_deal_escrow_accrued accrued_since ensure_deal_escrow
    synced_escrow set_times normalize_address account_locked account_at first_non_zero
    mul_div_uint64
spent_all = refl

spend_finite-IsCovered_example :
    (spent.2 ≤ 300)
    × (circulating spent.0.accounts + spent.2 ≡ circulating deals.accounts)
    × (spent.1.paid_fee ≡ 100 + spent.2)
    × IsCovered spent.1
unfolding normalize_address
spend_finite-IsCovered_example =
    spend_finite-IsCovered plain finite 300 1050 deals refl (omega arith, omega arith)

abbrev burned : State × Intent
burned = record_storage_fee_burn finite 50 deals

burn_booked_twice_example :
    (burned.1.burned_fee ≡ 0 + 50)
    × ((escrow_at "d1" burned.0.deal_escrows).burned_fee ≡ burned.1.burned_fee + 50)
burn_booked_twice_example =
    burn_booked_twice finite 50 deals (str_ne-of-false "d1" "" refl) (omega arith) (omega arith)
      (omega arith)

pay_reward-money_example :
    money (pay_reward plain "storage_proof" finite "0xb2" 400 1050 deals) ≡ money deals
unfolding normalize_address holdings
pay_reward-money_example =
    pay_reward-money plain "storage_proof" finite "0xb2" 400 1050 deals refl
      (str_ne-of-false "0xb2" "" refl) (omega arith) (omega arith)

abbrev dealt : State × Intent × ℕ
dealt = spend_from_deal plain permanent 400 1050 deals

found_permanent : lookup "p1" deals.intents ≡ some permanent
found_permanent = refl

open_fund : (ensure_permanent_fund permanent 1050 deals).closed ≡ false
unfolding ensure_permanent_fund
open_fund = refl

payable_is_paid_example :
    dealt.2
      + (pay_permanent_fund_subsidy dealt.1
          (400 - dealt.2)
          1050
          (vest_paid plain "storage_proof" "0xb2" dealt.2 1050 dealt.0)).1
    ≡ (payable_storage_reward plain "p1" 400 1050 deals).1
payable_is_paid_example =
    payable_is_paid plain "storage_proof" "0xb2" permanent 400 1050 deals found_permanent
      (omega arith) open_fund (omega arith)

abbrev after_spend : State
after_spend = (spend_permanent_fund plain permanent 200 1050 deals).0

abbrev after_close : State
after_close = (close_permanent_fund plain permanent "deleted" 1060 after_spend).0

no_funds : AllFunded deals.permanent_storage_funds
no_funds k f found = ground arith

steps-AllFunded_example : AllFunded after_close.permanent_storage_funds
steps-AllFunded_example =
    steps-AllFunded plain deals after_close
      (next (next here (spend permanent 200 1050 deals (omega arith, omega arith)))
        (close permanent "deleted" 1060 after_spend (omega arith, omega arith)))
      no_funds

abbrev more : TopupRequest
more = record { chain_id = "falari"; intent_id = "p1"; user = "0xa1"; amount = 70; nonce = 7 }

abbrev topped : PermanentStorageFund
topped = topped_fund 70 1070 (ensure_permanent_fund permanent 1070 deals)

abbrev written : State
written = topup_writes plain more permanent topped 1070 deals

abbrev payload : TopupPayload
payload = record { request = more; response = topped; topped_up_at_unix = 1070 }

more_accepted : top_up_permanent_fund plain more 1070 true deals ≡ ok (written, payload)
unfolding top_up_permanent_fund normalize_address account_locked account_at verify_account_request
more_accepted = refl

top_up_replayed_example : apply_permanent_fund_top_up plain payload true deals ≡ ok written
top_up_replayed_example =
    top_up_replayed plain more 1070 true deals written payload (omega arith) more_accepted

abbrev rich : State
rich = record deals {
  accounts =
      ("0xa1", record funded { address = "0xa1"; balance = 900_000; locked_storage = 1800 }) ∷ [];
}

renews : auto_renewable finite 1200 ≡ true
unfolding auto_renewable
renews = refl

price_of_renewal : estimate_renewal_price finite (renewal_duration finite) rich ≡ 100_000
unfolding estimate_renewal_price redundant_storage_bytes compute_storage_fee ceil_big_div
price_of_renewal = refl

auto_renew_deals-circulating_example :
    circulating (auto_renew_deals plain 1200 rich).0.accounts ≡ circulating rich.accounts
unfolding normalize_address holdings
auto_renew_deals-circulating_example =
    auto_renew_deals-circulating plain 1200 rich (refl, (refl, tt)) (omega arith)
