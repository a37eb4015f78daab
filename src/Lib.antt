-- ===== src/Lib.antt =====
-- The StakeWise v3 keeper: a process that carries the votes of the oracles, the exit signatures and the
-- price and LTV updates to the contracts. Each round of its main loop reads the protocol configuration and
-- runs the services as concurrent tasks, whose exceptions it logs. All of them send their transactions
-- through one transaction manager, whose lock lets one call of `transact` run at a time.
--
-- Each action is a function from a state to an outcome, `done` with a value or `raised` with an exception,
-- and the state after it (Base.Actions). `Sys` is the memory of a component beside the outside world, which
-- is a type parameter: nodes, contracts, IPFS and oracles are arguments of the definitions.
-- The numbers are unbounded as Python's are. Dictionaries are association lists in the order of insertion,
-- texts are lists of code points. Logging and metrics are left out.
--
-- - Base: lists, dictionaries, equality, texts, and actions with exceptions.
-- - Transaction (src/common/transaction.py): Rounding has Python's product of an integer and a double, Fees
--   the class `Fees`, Rejection the classification of node errors, Manager the class
--   `TransactionManager`: its records, the two ways to submit, the receipt, and `transact`. The loop over
--   the attempts of `_submit_default_gas` is a recursion on the attempts left.
-- - Contracts (src/common/contracts.py): Events has `ContractWrapper._get_last_event`. Its loop over the
--   chunks has fuel of one round for each block number up to the last one, which is enough since each
--   round goes down by at least one block.
--   Wrappers has the classes of the contracts as the services take them, with each transaction sent through the
--   transaction manager.
-- - Networks (src/config/networks.py) and Environ (src/config/settings.py): the tables of networks, and the settings
--   as they are read from the environment. What sw_utils, web3 and decouple give is a parameter; a setting that is
--   an `int` is an integer here, where the services take natural numbers.
-- - Clients (src/common/clients.py): how the clients are set up and closed, and the settings of the gas manager.
-- - Config (src/protocol_config/service.py, typings.py): `get_protocol_config` and its cache. It takes the event
--   search as a parameter; Config.Search fills it with the search of Contracts.Events.
-- - Votes: what the vote services share, `Counter.most_common`, stable sorting, and the loop that collects
--   signatures.
-- - Rewards (src/rewards/service.py, typings.py): the cache of votes, the choice of the winner, and the
--   signatures that are submitted; Fetch has the votes of the oracles, Service `process_rewards`.
--   The loop that evicts has fuel of one round for each entry, which is enough since each round drops
--   one.
-- - Distributor (src/distributor/service.py, typings.py): the votes for the root of the merkle distributor.
-- - State (src/common/app_state.py): what the services remember between the rounds.
-- - Price (src/price/service.py): the sync of the price, and the time of the last one.
-- - Graph (src/common/graph.py, typings.py): the vaults of the subgraph, and the check that it is synced. The
--   pages of a query are a parameter. `int` of a text is modelled over ASCII text.
-- - Exits (src/exits/service.py, crypto.py, typings.py): the shares of the exit signatures, the validators that exit
--   already, and `reconstruct_shared_bls_signature` over the points of an abstract curve. A validator's index in
--   the consensus node's answer is a number.
-- - Ltv (src/ltv/service.py, graph.py, typings.py): the users with the highest LTV.
-- - ForceExit (src/force_exit/service.py, execution.py, graph.py, typings.py): Queries has the answers of the
--   subgraph, Execution the checks and transactions of a leverage strategy, Service `process_force_exits`.
--   Floats are a type parameter with the operations that the code uses. A Python `set`, whose order is
--   arbitrary, is listed in the order of first appearance.
-- - Startup (src/common/startup_check.py, execution.py): the checks of the environment. The four loops that wait for
--   a node are one recursion on fuel, one unit for each round; Startup.Nodes says how many rounds are enough.
-- - Keeper (src/main.py): `main`, and the loop `start_keeper` that runs the services. It has fuel of one unit
--   for each round; Keeper.Termination says how many rounds are enough. The tasks of `asyncio.gather` run one
--   after the other; with `return_exceptions=True` an `Exception` of a task is a value, and a `KeyboardInterrupt`
--   or `SystemExit` goes on. Keeper.Wired fills the contracts with the wrappers of Contracts over the transaction manager.
-- - The modules named Frame: whatever property of the outside world the calls of a service keep, a run of the
--   service keeps. Keeper.Steps carries this through the rounds of the loop.
--
-- Not modelled: accounts, metrics and the construction of the clients, which only call third-party code. A transaction's hash, the
-- views of the contracts and the decoding of answers are parameters. Two tasks that wait for the manager's lock are
-- not modelled as interleaved: one call of `transact` is one step. The calls of the node that it makes may change
-- the world in any way, and no code but `TransactionManager` touches the records.
pub mod Base
pub mod Networks
pub mod Environ
pub mod Clients
pub mod State
pub mod Transaction
pub mod Contracts
pub mod Config
pub mod Votes
pub mod Rewards
pub mod Distributor
pub mod Price
pub mod Graph
pub mod Exits
pub mod Ltv
pub mod ForceExit
pub mod Startup
pub mod Keeper
