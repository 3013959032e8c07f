-- ===== src/Lib.antt =====
-- A model of the stateful core of the Soltrade packages (packages/*), with the theorems about it.
--
-- The program is a Solana copy-trading engine built from small packages. The packages modelled here
-- keep their state in memory behind factory functions; a factory's closed-over variables become a
-- record, a method becomes a function from that record and its arguments to the new record and the
-- answer, and `{ ok: true, … }` or `{ ok: false, reason, api_error_code }` becomes a value of `Reply`.
--
--   Prelude, Prelude/*            tests on numbers and texts, request fields, replies
--   Store, Store/*                a JavaScript Map with text keys; invariants and history of its entries, and
--                                 the ids that a counter has yet to make
--   Ssot                          packages/ssot-types/src/core-enums.mjs: the vocabularies
--   StatusGraph                   what a status graph reaches, for any ALLOWED table
--   Audit                         packages/data/src/audit.mjs: the append-only log
--   PositionLifecycle             packages/position-lifecycle: open, transition, advanceMigrationPhase,
--                                 handoverControlBrain, isTerminal
--   OperatingState                packages/operating-state-machine: evaluateTarget, apply, operatorReset,
--                                 isActionAllowed
--   IntentLedger                  packages/intent-ledger: create, updateStatus, createReplacement
--   ExecutionWalletRegistry       packages/execution-wallet-registry: register, transition,
--                                 isActionAllowed
--   ExecutionWalletLifecycle      packages/execution-wallet-lifecycle: drain, disable and revoke, over the
--                                 wallet registry that the factory is given
--   AssetTransferIntents          packages/asset-transfer-intents: createAssetTransferIntent,
--                                 cancelAssetTransferIntent, simulate
--   SignerProfiles                packages/signer-profiles-registry: register, transition
--   LiveModel, LiveModel/*        packages/contracts/src/live-model.mjs: the entities of the live runtime, their
--                                 specs and owners, validateEntity
--   DecisionLedger, */*           packages/decision-ledger: the claims and the canonical life of an intent, its
--                                 traces, the default ids, and the store as an interface
--   HotState, HotState/*          packages/hot-state: keys that expire, locks, rate limits and idempotency claims;
--                                 Timeline is the description that the map is compared with
--   WalletPool, */Policies        packages/execution-wallet-pool: the assignment policies over the wallet registry
--   ExitManager, */Requests       packages/exit-manager: previewBatchExit and requestBatchExit, over the intent
--                                 ledger and the position lifecycle
--   Config, Config/*              packages/config/src/schema.mjs and validate.mjs: the field tables, the rules and
--                                 validateConfig
--   Admission                     packages/execution-wallet-admission: activateExecutionWallet, over the wallet
--                                 registry, the signer profiles and validateConfig
--   KeylessCustody, */Commands    packages/keyless-custody-lifecycle: the custody gate and the commands that
--                                 load, use, degrade, zeroize, revoke and disable a session
--   ProfitSweep                   packages/profit-sweep: sweepProfits, simulateConfirm,
--                                 candidateSweepHistory
--   WalletRotation                packages/wallet-rotation: rotateExecutionWallet, start (child Start),
--                                 completeWalletRotation and simulateFail (child Completion), over the
--                                 registry, the lifecycle, the transfers and the sweeps
--
-- Beside a component stand its children: the graph of its statuses as a relation, its invariant, what a
-- sequence of calls does to its entries, and examples that evaluate the code and apply the theorems.
--
-- A field of a request that the code tests is an `Arg`: absent, of a foreign kind, or given. Where the
-- code tells values apart by `typeof` alone, a field is a `Value`, and an object is its own properties in
-- their order. Texts are native strings and are compared as the code compares them. An enum is a data type
-- with the words of its exported list, so a word outside the list is a foreign `Arg`; the vocabularies that
-- validateEntity and validateConfig look values up in are lists of words. A finite number is its sign, its
-- mantissa and its exponent over the bias. Where reading a property may throw inside a `try`, the request
-- says so. A clock is an argument: a call of the hot state or of the decision ledger gets the time.
--
-- Every loop runs over a list. Only the digits of a number are made on fuel: the decimal digits
-- (Prelude/Decimal) with one round more than the number, which is more than it has digits, and the
-- hexadecimal digits of a hash (DecisionLedger/IntentId) with 16 rounds, enough for the 64 bits.
--
-- Number(text) is modelled on texts of digits, the others being NaN: the hot state writes only digits and
-- NaN under the key of a rate limit, and a caller that sets another text there (a sign, a fraction, an
-- exponent) is outside the model.
--
-- Sorting texts is a parameter of the wallet pool; its theorem asks only that sorting invents no element.
--
-- Not modelled: fields that a record carries along and that no operation reads; databases, network and
-- signing, and the packages that wrap them, which the manifest lists with the reason. What the decision
-- ledger asks of its store is an interface with one law, that what was written is read again; the store in
-- memory fills it.
pub mod Prelude
pub mod Store
pub mod Audit
pub mod Ssot
pub mod StatusGraph
pub mod LiveModel
pub mod KeylessCustody
pub mod SignerProfiles
pub mod PositionLifecycle
pub mod OperatingState
pub mod IntentLedger
pub mod ExecutionWalletRegistry
pub mod ExecutionWalletLifecycle
pub mod AssetTransferIntents
pub mod ProfitSweep
pub mod WalletRotation
pub mod Config
pub mod Admission
pub mod DecisionLedger
pub mod HotState
pub mod ExitManager
pub mod WalletPool
