-- ===== src/Lib.antt =====
-- Navin: a supply-chain escrow for Soroban, in two contracts. contracts/token is the payment
-- token (balances, allowances, supply, pause, metadata). contracts/shipment follows shipments
-- through their life cycle and holds each shipment's escrow in a token, which it calls across
-- contracts under a circuit breaker, with a settlement record for each payment.
--
-- The files:
--   Prelude.antt (and Prelude/): the tests on numbers, signed integers with the checked
--     operations of i128, and association maps.
--   Host.antt: the Soroban host. A contract function is an action on its contract's storage that
--     ends with a value, with an error, or by a panic; `invoke` keeps what was written only if
--     it returned `Ok`. Authorization is a predicate of the environment.
--   Token.antt (and Token/): contracts/token/src. State.antt is the storage (`DataKey`) as a
--     record, Storage.antt storage.rs function by function, Transfer, Allowance, Supply, Control
--     and Metadata the entry points of lib.rs under their Rust names, Calls.antt a call as a
--     value. Ledger.antt and Invariant.antt say what a valid ledger is; Moves, Batch,
--     Conservation, Authority, Governance, Paused and Spending hold the proofs.
--   Host/Keeps.antt and Host/Turns.antt: what an action keeps or gives, and what it leads from one
--     condition to another, with one rule for each way to build an action.
--   Shipment.antt (and Shipment/): contracts/shipment/src. Errors.antt is errors.rs; Status.antt
--     the status and its transition test in types.rs; Breaker.antt circuit_breaker.rs;
--     RateLimit.antt rate_limit.rs; Config.antt the configuration of config.rs; Data.antt the
--     types of types.rs that the handlers use, and the events of events.rs as constructors;
--     Store.antt and Progress.antt the part of storage.rs that they read and write; Guards.antt
--     and Symbols.antt the guards, validators and checked arithmetic; Settlement.antt the
--     settlement records and the calls of the token. The handlers of lib.rs: Creation
--     (`create_shipment`, `create_shipments_batch`), Updates (`update_status`,
--     `record_milestone`), Delivery (`confirm_delivery`, `confirm_partial_delivery`,
--     `check_deadline`), Escrow (`deposit_escrow`, `release_escrow`, `refund_escrow`),
--     Milestones (`release_milestone_payment`), Dispute (`cancel_shipment`,
--     `force_cancel_shipment`, `raise_dispute`, `resolve_dispute`), Dependencies
--     (`add_shipment_dependency`), Council (`transfer_admin`, `init_multisig`, `propose_action`,
--     `propose_action_with_salt`, `approve_action`, `execute_proposal`), Roles (roles, suspension,
--     the whitelist of carriers, `accept_admin_transfer`), Administration (`initialize`, limits,
--     pause, configuration, fee, quota, breaker). Audit.antt is audit.rs. Calls.antt is a call as
--     a value, of those handlers that act on one shipment for one caller. The proofs stand in
--     Config/Bounds, Roles/Revoked, Roles/Audited, Audit/History, Administration/Configured,
--     Status/Lifecycle, Breaker/Config, Breaker/Traces, RateLimit/Window, Creation/Registered,
--     Creation/Handlers, Updates/Transitions, Dependencies/Search, Dependencies/Acyclic,
--     Council/Marks, Council/Execution, Council/Salts, Access, Frozen, Cancelled, Custody, Keeps, Calm and
--     Solvency (with Solvency/: Steps, Payments and Rules are the accounts over one step,
--     Handlers, Progress, Deposits, Admins, Creation and Administration over the handlers,
--     Transactions over any history, and Navin the token of this repository as the one that is
--     called).
--   Tests.antt in Token/ and in Shipment/ (and Shipment/Tests/): the theorems at concrete
--   inputs.
--
-- How the code corresponds to the model. A storage entry is a field of a record: an Option where
-- it may be absent, a function or an association map where it is keyed. Addresses, symbols and
-- 32-byte hashes are only compared, so they are numbers. i128 is the integers, with the checked
-- operations written out; an addition that the Rust code leaves unchecked is one that panics
-- past the range, since the release profile keeps overflow checks on. u32 and u64 are natural
-- numbers, with the bound written where the code adds. Of a loop the recursion is structural;
-- only the search for a cycle of prerequisites has fuel, which stands for the host's budget, and
-- a bound on the turns it needs is proved.
--
-- What stands for code that is not in the repository: the Soroban host (Host.antt), SHA-256 and
-- the XDR bytes of symbols and addresses (the fields of `HostApi`), and the deployed token contract
-- (`TokenApi`, the result of its `decimals` and `transfer` on a ledger of any type), since the
-- shipment contract takes any address as its token. `IsLawful` (Solvency.antt) is what the
-- accounts ask of it; Solvency/Navin.antt is contracts/token in its place.
--
-- Not modelled: of lib.rs batches of milestones, handoffs, condition reports, notes and evidence,
-- queries, archiving and upgrades, and with them consistency.rs, diagnostics.rs, recovery.rs,
-- error_map.rs and event_topics.rs: they follow. Extending the time to live of an entry is
-- logged, and expiry is not modelled. Of an event the payload is kept, without its idempotency
-- key and schema version.
pub mod Prelude
pub mod Host
pub mod Token
pub mod Shipment
