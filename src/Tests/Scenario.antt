-- ===== src/Tests/Scenario.antt =====
-- A network of four nodes, and the messages of a round that finalizes a block.
use blockchain_application.Prelude.{
  ℕ, ◌≡◌, refl, String, true, Option, none, some, List, [], ◌∷◌, string_eq, nat_eq, map,
}
use blockchain_application.Prelude.Dict
use blockchain_application.Crypto.Text.{hex, from_hex}
use blockchain_application.Crypto.Encoding.{hash_obj, canonical_bytes, sort_keys}
use blockchain_application.Crypto.Signing
use blockchain_application.Crypto.Signing.{Crypto, pubkey_hex}
use blockchain_application.Messages.Transaction
use blockchain_application.Messages.Transaction.{Transaction, transaction_eq}
use blockchain_application.Messages.BlockHeader
use blockchain_application.Messages.Block
use blockchain_application.Messages.Block.{Block}
use blockchain_application.Messages.Vote
use blockchain_application.Messages.Vote.{Phase, prevote, precommit, Vote}
use blockchain_application.Execution
use blockchain_application.Clock
use blockchain_application.Network
use blockchain_application.Network.Types.{NetworkConfig, Message}
use blockchain_application.Engine.Types.{Engine, honest, Sys, fresh}
use blockchain_application.Engine.Chain
use blockchain_application.Engine.Validation
use blockchain_application.Engine.Votes
use blockchain_application.Engine.Proposals
use blockchain_application.Engine.Rounds
use blockchain_application.Engine.Handlers
use blockchain_application.Engine.Inputs
use blockchain_application.Engine.Inputs.{Input, receive, expire}
use blockchain_application.Tests.Toy.{toy}

abbrev pub no_luck : ℕ → ℕ → ℕ
no_luck seed i = 999_999_999

abbrev pub seeds : List ℕ
seeds = 1 ∷ 2 ∷ 3 ∷ 4 ∷ []

abbrev pub id_of : ℕ → String
unfolding pubkey_hex toy
id_of seed = pubkey_hex toy (toy.public_key (seed ∷ []))

abbrev pub config : NetworkConfig
config = record {
  min_delay = 10;
  max_delay = 50;
  drop_rate = 0;
  duplicate_rate = 0;
  reorder_list = [];
  stabilized = true;
  bounded_delay = 20;
  rate_limit = 0;
  rate_window = 1000;
  block_duration = 1000;
}

abbrev pub four : List String
four = map id_of seeds

abbrev pub engine_of : ℕ → List Transaction → Engine
engine_of seed mempool = record {
  class = honest;
  node_id = id_of seed;
  signing_key = seed ∷ [];
  validators = four;
  mempool = mempool;
  state_store = Execution.empty;
  ledger = [];
  round_timeout = 500;
  height = 0;
  cs = fresh;
  timeout_event = none;
}

-- Every private and public helper of the engine, open for evaluation.
unfoldable pub run_toy : List Input → Sys → Option Sys
unfolding toy Dict.lookup Dict.has Dict.get_or Dict.insert Dict.set_default Dict.erase string_eq
    nat_eq hex from_hex hash_obj canonical_bytes sort_keys Signing.sign Signing.verify pubkey_hex
    Transaction.transaction_eq Transaction.signing_payload Transaction.sign Transaction.verify
    Transaction.tx_hash BlockHeader.signing_payload BlockHeader.sign BlockHeader.verify
    BlockHeader.block_hash Block.block_hash Vote.signing_payload Vote.sign Vote.verify
    Execution.owner Execution.has_separator Execution.add_nonce Execution.has_seen
    Execution.state_root Execution.can_apply Execution.apply Execution.apply_each
    Execution.apply_all Execution.tx_root Clock.push Clock.schedule Clock.cancel Network.append_log
    Network.log Network.random Network.uniform Network.drops Network.base_delay
    Network.reordered_delay Network.schedule_delivery Network.transmit Network.send_unlimited
    Network.send Network.broadcast Chain.proposer_for Chain.is_proposer Chain.logical_timestamp
    Chain.parent_hash Chain.log_at Chain.log Chain.cancel_timeout Chain.reset_round_timeout
    Chain.buckets Chain.bucket Chain.touch_bucket Chain.put_vote Validation.block_fault
    Validation.is_valid Validation.log_fault Validation.validate_block Validation.accept_header
    Votes.count_votes Votes.react_all Votes.tally_with Votes.send_each Votes.own_vote Votes.send_to
    Votes.broadcast Votes.cast_vote Votes.send_vote_with Proposals.build_block
    Proposals.block_to_propose Proposals.proposal_of Proposals.put_proposal Proposals.announce
    Rounds.remove_all Rounds.lock_on Rounds.start_round Rounds.commit Rounds.choose_vote
    Rounds.on_precommit_quorum Rounds.on_precommit_nil_quorum Rounds.tally_precommits
    Rounds.send_precommit Rounds.awaits_precommit Rounds.on_prevote_quorum
    Rounds.on_prevote_nil_quorum Rounds.tally_prevotes Rounds.send_prevote Rounds.tally
    Rounds.handle_proposal_local Rounds.propose Rounds.enter_round Handlers.tx_by_hash
    Handlers.missing Handlers.collect Handlers.on_accepted Handlers.on_proposal Handlers.on_vote
    Handlers.on_timeout Inputs.dispatch Inputs.perform Inputs.perform_all
run_toy = Inputs.perform_all toy no_luck 3

abbrev pub proposer : Engine
proposer = engine_of 1 []

-- The block of the round's proposer.
abbrev pub block : Block
unfolding run_toy
block = Proposals.build_block toy proposer 0 0

abbrev pub vote_of : ℕ → Phase → Vote
unfolding run_toy
vote_of seed phase = Votes.own_vote toy (engine_of seed []) phase (Block.block_hash toy block)

abbrev pub proposal : Input
proposal = receive (Message.proposal block.header [] 0)

abbrev pub vote_in : ℕ → Phase → Input
vote_in seed phase = receive (Message.vote phase (vote_of seed phase))

-- Node 4 with its round timer started, before it hears of anything.
abbrev pub node : Sys
unfolding run_toy
node =
    Rounds.start_round 0 (record {
      engine = engine_of 4 [];
      network = record (Network.create config) { nodes = four };
    })

abbrev pub messages : List Input
messages =
    proposal
    ∷ vote_in 1 prevote
    ∷ vote_in 2 prevote
    ∷ vote_in 1 precommit
    ∷ vote_in 2 precommit
    ∷ []

abbrev pub result : Option Sys → Sys → Sys
result none s = s
result (some t) s = t

abbrev pub final : Sys
unfolding run_toy
final = result (run_toy messages node) node

pub final_lem : Inputs.perform_all toy no_luck 3 messages node ≡ some final
unfolding run_toy
final_lem = refl

final_height : final.engine.height ≡ 1
unfolding run_toy
final_height = refl

-- The messages up to the quorum of prevotes.
abbrev pub prevotes : List Input
prevotes = proposal ∷ vote_in 1 prevote ∷ vote_in 2 prevote ∷ []

abbrev pub half : Sys
unfolding run_toy
half = result (run_toy prevotes node) node

pub half_lem : Inputs.perform_all toy no_luck 3 prevotes node ≡ some half
unfolding run_toy
half_lem = refl

-- A prevote that arrives in a message of the other type.
abbrev pub replayed : Sys
unfolding run_toy
replayed = result (Handlers.on_vote toy no_luck 3 precommit (vote_of 1 prevote) node) node

pub replayed_lem : Handlers.on_vote toy no_luck 3 precommit (vote_of 1 prevote) node ≡ some replayed
unfolding run_toy
replayed_lem = refl
