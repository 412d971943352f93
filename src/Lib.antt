-- ===== src/Lib.antt =====
-- A verification of the BFT blockchain simulator: a Tendermint-like consensus among a fixed set of
-- validators, on a simulated network that runs on virtual time.
--
-- The parts, and the files that model them:
--
-- `Crypto`: canonical JSON (src/crypto/encoding.py) in `Crypto/Encoding`, its text in
-- `Crypto/Text`, and domain-separated signatures (src/crypto/signing.py) in `Crypto/Signing`.
-- SHA-256 and Ed25519 are the fields of the record `Crypto`, a parameter of what uses them;
-- `IsLawful` states what theorems rely on: keys and signatures are bytes, and what a key signs
-- verifies.
--
-- `Messages`: `Transaction`, `BlockHeader`, `Block` and `Vote` of src/types/messages.py.
--
-- `Execution`: the key-value state of src/execution/state.py. States are values, so `clone` is
-- the state itself; a set of nonces is a list with no repetition. `Execution/Root` reads a state as
-- the map from its keys to their values.
--
-- `Clock` and `Network`: `VirtualClock` and `Network` of src/network/simulator.py. Times are
-- whole nanoseconds (`schedule` rounds to nine places) and rates are billionths; the heap is its
-- events in the order in which they are popped. `random.Random` is the parameter `draw`, which
-- gives the number at each seed and position.
-- `Network/Sent` is about the log of a send, `Network/Stable` about the order and the delays of
-- deliveries, and `Network/Limit` about the rate limit.
--
-- `Engine`: `ConsensusEngine` of src/consensus/engine.py and `ByzantineEngine` of
-- src/byzantine.py. A method is a function from `Sys`, the engine with the network, to
-- `Option Sys`. `Engine/Types` has the state, `Chain`, `Validation`, `Votes` and `Proposals` the
-- helpers, `Rounds` the methods that call one another, and `Handlers` the entry points. A
-- `ByzantineEngine` is told apart by the field `class`, where the subclass overrides.
--
-- `World`: `Node` of src/node.py, the delivery of messages, and the loop of the clock.
--
-- `Quorum`: the arithmetic of quorums, and what two of them share.
--
-- `Prelude`: Python's dicts and lists, and the Boolean tests. `Tests`: a toy cryptography, a run
-- of four nodes, T7 and T8 among them, and the theorems applied to it.
--
-- How they interact: the clock pops a delivery or a round timer (`World.advance`), a delivery goes
-- to the node's handler for the message's type (`Engine.Inputs.dispatch`), and the handler changes
-- the engine and sends through the network, which schedules deliveries on the clock. The node's
-- mempool, state and ledger are shared with its engine, and stand in the engine's record.
--
-- Recursion: `_tally`, `_send_vote`, `_propose` and `_enter_round` call one another. The cycle is
-- cut at `_enter_round`: `Rounds.enter_round` recurs on a depth, and `none` stands for Python's
-- `RecursionError` when that is used up. Each nested call either starts a new height or goes to the
-- next round of the same one, and stops at a round that has no stored votes when a quorum takes two
-- votes, as from four validators on: so two more than the number of rounds with stored votes is
-- deep enough for any handler (`Engine/Termination`). `World.run` takes a number of rounds of its
-- loop, and gives back the world that it reached when these are used up.
--
-- `Engine/Induction` has the induction principle that the guarantees rest on: a property of states
-- that each elementary change keeps (an `Invariant`) holds after every method and handler at any
-- depth that returns. A reaction to a quorum may rely on the quorum (`Evidence`), which follows
-- once the property bounds the buckets. `Engine/Induction/Keepers` is its form for relations
-- between an earlier and a later state. `Engine/Replay`, `Engine/Monotone`, `Engine/Authentic` and
-- `Engine/Certificates` are what it is used for; `Engine/Origin` is where recorded votes come from.
-- An `Invariant` may also follow the votes that messages bring, each with the phase that its
-- message's type names. `World/Nodes` lifts such a property of engines to every node of a
-- simulation.
--
-- `Harness`: main.py. `Setup` makes the nodes and networks, `Timeline` starts the nodes and runs
-- the clock, `Report` checks the ledgers, `Settings` is the configuration, `Scenarios` and `Faults`
-- are T1 to T8, and `Main` collects their results. An `Outcome` is a result, an exception, or a
-- clock whose rounds were used up. `Harness/Runs` says what holds at the end of a simulation.
--
-- Not modelled: the printed reports and the command line of main.py, the unit tests that it runs
-- (their results are a parameter), the helper scripts, the file that the log is written to, and
-- malformed messages, which the simulator never makes. The log's entries hold whole identifiers,
-- which `short_addr` only shortens in the file.
pub mod Prelude
pub mod Crypto
pub mod Messages
pub mod Execution
pub mod Clock
pub mod Network
pub mod Engine
pub mod World
pub mod Harness
pub mod Tests
pub mod Quorum
