-- ===== src/Lib.antt =====
-- The calculations that predict the lending protocol, and the contracts that they predict.
--
-- The protocol is a set of Solidity contracts (contracts/): suppliers deposit an asset into a reserve,
-- borrowers owe it at a stable or a variable rate, and interest grows by indexes. The test suite
-- (test-suites/) keeps a second implementation of it in TypeScript: before each action it reads a
-- reserve and a user from the chain, calculates what both have to be after the action, and compares.
-- That second implementation is the specification that the contracts are held to, and it is what this
-- development models in full, together with the harness of the tests that drives the contracts by it.
-- Of the contracts it models the arithmetic and the strategy for the interest rates, and compares the
-- two.
--
-- Parts.
--   Base        shared names, Boolean tests, signed integers (Base/Int), the result of a call that may
--               throw (Base/Result), and calls that read and change a state (Base/Step).
--   WadRay      test-suites/helpers/utils/wadraymath.ts and the constants of helpers/constants.ts:
--               rayMul is `ray_mul`, and so on. WadRay/Natural has the same formulas over the natural
--               numbers.
--   Calc        test-suites/helpers/utils/calculations.ts. A function has the name of the source in
--               snake case: calcExpectedReserveDataAfterBorrow is
--               `calc_expected_reserve_data_after_borrow`. Calc/Data and Calc/UserData have the
--               interfaces of test-suites/helpers/utils/interfaces/index.ts, Calc/Config the parameters
--               of helpers/types.ts. Calc/Interest has interest, indexes and balances, Calc/Rates the
--               usage ratios and the rates, Calc/State the steps that all actions share, and
--               Calc/Supply, Bridge, Borrow, Repay and Swap the actions, each for the reserve and for
--               the user. Calc/Sound, Balances, Averages, Indexes, Treasury, Returns, Consistent,
--               Conservation, Clearing and Users have what holds of them, Calc/Examples concrete data.
--   Contracts   contracts/protocol/libraries/math (Contracts/FixedPoint, Contracts/Interest) and
--               contracts/protocol/pool/DefaultReserveInterestRateStrategy.sol
--               (Contracts/RateStrategy). Contracts/Words has words of 256 bits with checked
--               arithmetic, Contracts/Predicts the relation between a calculation and a call.
--   Suite       the harness, test-suites/helpers. Suite/Chain has the chain as a parameter, a record of
--               what is read and of `send`, with the transactions and the conversions of
--               helpers/contracts-helpers.ts; Suite/Reading getReserveData, getUserData and
--               getContractsData; Suite/Compare almostEqualOrEqual; Suite/Actions the actions of
--               actions.ts, by groups (Supply, Borrow, Repay, Modes), with what a passing action shows
--               (Checked) and when one passes (Passing, Outcomes); Suite/Engine
--               scenario-engine.ts;
--               Suite/Events matchEvent of utils/helpers.ts; Suite/TokenEvents
--               utils/tokenization-events.ts; Suite/Examples a concrete chain.
--
-- An action reads a reserve and a user through Suite/Reading, sends a transaction, reads again, calls the
-- calculations of Calc and compares by Suite/Compare; the engine calls the actions of a story in order.
--
-- How the code is modelled. A BigNumber is an integer without a bound, `div` rounds towards zero and
-- throws at 0, as the package documents. The decimal strings that amounts, constants and parameters
-- are written as are the integers that they denote. Data read from the chain is a record with all its
-- fields (`ReserveData`, `UserReserveData`). An object under construction, `<ReserveData>{}`, is a record
-- of options (`ExpectedReserve`, `ExpectedUser`), and an operation on a field that was not assigned is
-- an error; so an order of assignments that reads too early shows. A function that mutates its argument
-- returns it. Arguments that the source does not read (the cost of the transaction, some of the
-- timestamps, the user of a borrow's reserve) are left out, and the global configuration is the first
-- argument. A call of the harness is a `Step`: it takes the state of the chain and gives a value or an
-- exception, and the state that it leaves; promises are awaited in order. The chain, ethers, hardhat,
-- the getters of deployed contracts and the assertions of chai on transactions are the parameter
-- `Chain`: no law is asked of it. In the contracts, `none` is a revert; the products of the assembly wrap around at 2^256
-- after their tests. The loops run over lists (the keys of an object, the actions of
-- a story, the logs and the arguments of an event), so that no fuel is needed.
--
-- The theorems speak of numbers that are not negative where the chain stores no others, and of reserves
-- that are sound (Calc/Sound): indexes of at least one ray, rates and debts that are not negative.
--
-- Not modelled: the other contracts (reserve logic, actions, validation, configuration bitmaps, pool,
-- tokens), what the harness prints, the setting up of the environment and its snapshots
-- (make-suite.ts), the readers of single token events, scripts, mocks and vendored code. The contracts
-- behind the harness enter as the parameter `Chain`.
pub mod Base
pub mod WadRay
pub mod Calc
pub mod Contracts
pub mod Suite
