-- ===== src/Calc/Conservation/Transfers.antt =====
-- A transfer between the wallet of a user and the reserve: what the reserve's calculation and the
-- user's of test-suites/helpers/utils/calculations.ts expect for the one action.
use kza_lending.Base.{◌≡◌, refl, true, some}
use kza_lending.Base.Int.{ℤ, pos, ◌+ℤ◌, ◌-ℤ◌, int_laws}
use kza_lending.Base.Result.{Result, ok, Ensures, after, need}
use kza_lending.Calc.Data.{ReserveData, ExpectedReserve, RateMode, assigned}
use kza_lending.Calc.UserData.{UserReserveData, ExpectedUser, copy_user}
use kza_lending.Calc.Config.{Configuration}
use kza_lending.Calc.Interest.{
  calc_expected_a_token_balance, calc_expected_scaled_a_token_balance,
  calc_expected_variable_debt_token_balance, calc_expected_stable_debt_token_balance,
}
use kza_lending.Calc.Balances.{a_token_balance_given, variable_debt_given}
use kza_lending.Calc.Supply.{
  amount_to_withdraw, calc_expected_reserve_data_after_deposit,
  calc_expected_reserve_data_after_withdraw, calc_expected_user_data_after_deposit,
  calc_expected_user_data_after_withdraw,
}
use kza_lending.Calc.Borrow.{
  borrow_user, calc_expected_reserve_data_after_borrow, calc_expected_user_data_after_borrow,
}
use kza_lending.Calc.Repay.{
  amount_to_repay, repay_user, calc_expected_reserve_data_after_repay,
  calc_expected_user_data_after_repay,
}
use kza_lending.Calc.Conservation.{deposit-Available, withdraw-Available}
use kza_lending.Calc.Conservation.Debt.{borrow-Available, repay-Available}

-- The actions that move the asset between the wallet and the reserve. A user repays for itself.
pub data Transfer : Type 0 where
  deposit withdraw : ℤ → Transfer
  borrow repay : ℤ → RateMode → Transfer

unfoldable pub reserve_after :
    Configuration → Transfer → ReserveData → UserReserveData → ℤ → Result ExpectedReserve
reserve_after params (deposit amount) before user t =
    calc_expected_reserve_data_after_deposit params amount before t
reserve_after params (withdraw amount) before user t =
    calc_expected_reserve_data_after_withdraw params amount before user t
reserve_after params (borrow amount mode) before user t =
    calc_expected_reserve_data_after_borrow params amount mode before t t
reserve_after params (repay amount mode) before user t =
    calc_expected_reserve_data_after_repay params amount mode before user t

unfoldable pub user_after :
    Transfer → ReserveData → ExpectedReserve → UserReserveData → ℤ → Result ExpectedUser
user_after (deposit amount) before expected user t =
    calc_expected_user_data_after_deposit amount before expected user t
user_after (withdraw amount) before expected user t =
    calc_expected_user_data_after_withdraw amount before expected user t
user_after (borrow amount mode) before expected user t =
    calc_expected_user_data_after_borrow amount mode before expected user t t
user_after (repay amount mode) before expected user t =
    calc_expected_user_data_after_repay amount mode before expected user true t t

abbrev Wallet : ℤ → ExpectedUser → Type 0
Wallet w u = u.wallet_balance ≡ some w

done : (w : ℤ) (u : ExpectedUser) → Wallet w u → Ensures (Wallet w) (ok u)
done w u a = record { exact = λ v h. cc }

deposit-Wallet :
    (amount : ℤ) (before : ReserveData) (e : ExpectedReserve) (user : UserReserveData) (t : ℤ)
    → Ensures
        (Wallet (user.wallet_balance -ℤ amount))
        (calc_expected_user_data_after_deposit amount before e user t)
unfolding calc_expected_user_data_after_deposit
deposit-Wallet amount before e user t =
    after _ (calc_expected_variable_debt_token_balance (assigned before) (copy_user user) t) _
      λ d _. after _ (need e.liquidity_index) _ λ index _.
        after _ (calc_expected_scaled_a_token_balance user index amount (pos 0)) _ λ s _.
          after _ (calc_expected_a_token_balance (assigned before) (copy_user user) t) _
            λ b _. done _ _ refl

-- The balance, which a withdrawal of the largest amount stands for, is computed for both alike.
withdraw-Wallet :
    (amount balance : ℤ) (before : ReserveData) (e : ExpectedReserve) (user : UserReserveData)
    (t : ℤ)
    → calc_expected_a_token_balance (assigned before) (copy_user user) t ≡ ok balance
    → Ensures
        (Wallet (user.wallet_balance +ℤ amount_to_withdraw amount balance))
        (calc_expected_user_data_after_withdraw amount before e user t)
unfolding calc_expected_user_data_after_withdraw
withdraw-Wallet amount balance before e user t held = rw held (
    after _ (need e.liquidity_index) _ λ index _.
      after _
        (calc_expected_scaled_a_token_balance user index (pos 0)
          (amount_to_withdraw amount balance))
        _
        λ s _.
          after _ (calc_expected_variable_debt_token_balance (assigned before) (copy_user user) t) _
            λ d _. done _ _ refl)

borrow-Wallet :
    (amount : ℤ) (mode : RateMode) (before : ReserveData) (e : ExpectedReserve)
    (user : UserReserveData) (t : ℤ)
    → Ensures
        (Wallet (user.wallet_balance +ℤ amount))
        (calc_expected_user_data_after_borrow amount mode before e user t t)
unfolding calc_expected_user_data_after_borrow
borrow-Wallet amount mode before e user t =
    after _ (borrow_user amount mode before e user t t) _ λ u _.
      after _ (calc_expected_variable_debt_token_balance e u t) _
        λ d _. after _ (calc_expected_a_token_balance e (copy_user user) t) _ λ b _. done _ _ refl

abbrev stable_debt : UserReserveData → ℤ → ℤ
stable_debt user t =
    calc_expected_stable_debt_token_balance user.principal_stable_debt user.stable_borrow_rate
      user.stable_rate_last_updated t

repay-Wallet :
    (amount : ℤ) (mode : RateMode) (before : ReserveData) (e : ExpectedReserve)
    (user : UserReserveData) (t debt : ℤ)
    → calc_expected_variable_debt_token_balance (assigned before) (copy_user user) t ≡ ok debt
    → Ensures
        (Wallet (user.wallet_balance -ℤ amount_to_repay amount mode (stable_debt user t) debt))
        (calc_expected_user_data_after_repay amount mode before e user true t t)
unfolding calc_expected_user_data_after_repay
repay-Wallet amount mode before e user t debt owed =
    let paid = amount_to_repay amount mode (stable_debt user t) debt in
    rw owed (
      after _ (repay_user paid mode e user (stable_debt user t) debt t) _ λ u _.
        after _ (calc_expected_a_token_balance (assigned before) (copy_user user) t) _
          λ b _. done _ _ refl)

-- What is in the reserve and in the wallet together.
pub record Conserves (before : ReserveData) (user : UserReserveData) (e : ExpectedReserve)
    (u : ExpectedUser) : Type 0 where
  pub available : ℤ
  pub wallet : ℤ
  pub available_is : e.available_liquidity ≡ some available
  pub wallet_is : u.wallet_balance ≡ some wallet
  pub sum : available +ℤ wallet ≡ before.available_liquidity +ℤ user.wallet_balance

gain : (l w a : ℤ) → l +ℤ a -ℤ pos 0 +ℤ (w -ℤ a) ≡ l +ℤ w
gain l w a = omega int_laws

loss : (l w a : ℤ) → l +ℤ pos 0 -ℤ a +ℤ (w +ℤ a) ≡ l +ℤ w
loss l w a = omega int_laws

-- Between a reserve and a user nothing is lost: whatever the transfer, its amount and its rate mode,
-- where a repayment is one of the user for itself, if both calculations give a result, with the
-- current time that of the transaction, then the available liquidity and the wallet have the sum
-- that they had before. This includes the largest amount, which each of the two replaces by a
-- balance that it computes itself.
pub transfers_conserve :
    (params : Configuration) (transfer : Transfer) (before : ReserveData) (user : UserReserveData)
    (t : ℤ) (e : ExpectedReserve) (u : ExpectedUser)
    → reserve_after params transfer before user t ≡ ok e
    → user_after transfer before e user t ≡ ok u
    → Conserves before user e u
unfolding reserve_after user_after
transfers_conserve params (deposit amount) before user t e u h k = record {
  available = _;
  wallet = _;
  available_is = (deposit-Available params amount before t).exact e h;
  wallet_is = (deposit-Wallet amount before e user t).exact u k;
  sum = gain before.available_liquidity user.wallet_balance amount;
}
transfers_conserve params (borrow amount mode) before user t e u h k = record {
  available = _;
  wallet = _;
  available_is = (borrow-Available params amount mode before t t).exact e h;
  wallet_is = (borrow-Wallet amount mode before e user t).exact u k;
  sum = loss before.available_liquidity user.wallet_balance amount;
}
transfers_conserve params (withdraw amount) before user t e u h k =
    let (balance, held) = a_token_balance_given before user t in
    record {
      available = _;
      wallet = _;
      available_is = (withdraw-Available params amount balance before user t held).exact e h;
      wallet_is = (withdraw-Wallet amount balance before e user t held).exact u k;
      sum = loss before.available_liquidity user.wallet_balance (amount_to_withdraw amount balance);
    }
transfers_conserve params (repay amount mode) before user t e u h k =
    let (debt, owed) = variable_debt_given before user t in
    record {
      available = _;
      wallet = _;
      available_is = (repay-Available params amount mode before user t debt owed).exact e h;
      wallet_is = (repay-Wallet amount mode before e user t debt owed).exact u k;
      sum =
          gain before.available_liquidity user.wallet_balance
            (amount_to_repay amount mode (stable_debt user t) debt);
    }
