-- ===== src/Engine/Types.antt =====
-- The state of `ConsensusState` and `ConsensusEngine` of src/consensus/engine.py, with the
-- network that the engine acts on.
use blockchain_application.Prelude.{
  ℕ, ◌+◌, ◌-◌, ◌*◌, ◌/◌, String, Bool, false, Option, none, some, List, [], length, leb,
}
use blockchain_application.Prelude.Dict.{Dict}
use blockchain_application.Crypto.Text.{Bytes}
use blockchain_application.Execution.{State}
use blockchain_application.Messages.Transaction.{Transaction}
use blockchain_application.Messages.BlockHeader.{BlockHeader}
use blockchain_application.Messages.Block.{Block}
use blockchain_application.Messages.Vote.{Phase, prevote, precommit, Vote}
use blockchain_application.Network.Types.{Network}

-- `PROPOSE`, `PREVOTE`, `PRECOMMIT` and `COMMIT`
pub data Step : Type 0 where
  at_propose at_prevote at_precommit at_commit : Step

pub Step-discrete : Discrete Step
Step-discrete = hlevel

-- `votes[round]`: the bucket of each phase.
pub record Buckets : Type 0 where
  pub prevotes : Dict String Vote
  pub precommits : Dict String Vote

abbrev pub no_votes : Buckets
no_votes = record { prevotes = []; precommits = [] }

-- A round of `none` stands for -1.
pub record ConsensusState : Type 0 where
  pub round : ℕ
  pub step : Step
  pub locked_block : Option Block
  pub locked_round : Option ℕ
  pub valid_block : Option Block
  pub valid_round : Option ℕ
  pub proposals : Dict ℕ Block
  pub votes : Dict ℕ Buckets
  pub pending_headers : Dict ℕ (BlockHeader × List String)
  pub decided : Bool

-- `ConsensusState()`
abbrev pub fresh : ConsensusState
fresh = record {
  round = 0;
  step = at_propose;
  locked_block = none;
  locked_round = none;
  valid_block = none;
  valid_round = none;
  proposals = [];
  votes = [];
  pending_headers = [];
  decided = false;
}

-- The class of the engine object: `ConsensusEngine` or `ByzantineEngine`.
pub data EngineClass : Type 0 where
  honest byzantine : EngineClass

-- The mempool, the state and the ledger are the node's own lists and objects, which the engine
-- shares with it and changes in place.
pub record Engine : Type 0 where
  pub class : EngineClass
  pub node_id : String
  pub signing_key : Bytes
  pub validators : List String
  pub mempool : List Transaction
  pub state_store : State
  pub ledger : List Block
  pub round_timeout : ℕ
  pub height : ℕ
  pub cs : ConsensusState
  pub timeout_event : Option ℕ

-- What a method of the engine can change.
pub record Sys : Type 0 where
  pub engine : Engine
  pub network : Network

-- `n`, `f` and `quorum` of the constructor.
abbrev pub faults : ℕ → ℕ
faults n = (n - 1) / 3

abbrev pub quorum_of : ℕ → ℕ
quorum_of n = 2 * faults n + 1

abbrev pub quorum : Engine → ℕ
quorum e = quorum_of (length e.validators)

-- `round_ >= other`, where `other` may be -1.
abbrev pub is_since : ℕ → Option ℕ → Bool
is_since round none = Bool.true
is_since round (some other) = leb other round

abbrev pub bucket_of : Phase → Buckets → Dict String Vote
bucket_of prevote b = b.prevotes
bucket_of precommit b = b.precommits

abbrev pub set_bucket : Phase → Dict String Vote → Buckets → Buckets
set_bucket prevote d b = record b { prevotes = d }
set_bucket precommit d b = record b { precommits = d }

abbrev pub with_cs : (ConsensusState → ConsensusState) → Sys → Sys
with_cs f s = record s { engine = record (s.engine) { cs = f s.engine.cs } }

abbrev pub with_engine : (Engine → Engine) → Sys → Sys
with_engine f s = record s { engine = f s.engine }

abbrev pub with_network : (Network → Network) → Sys → Sys
with_network f s = record s { network = f s.network }
