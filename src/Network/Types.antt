-- ===== src/Network/Types.antt =====
-- The messages, log entries and settings of src/network/simulator.py, with `NetworkBody`,
-- `LogMessage` and `LogConsensus` of src/types/messages.py. Log entries keep whole identifiers,
-- which `short_addr` abbreviates in the file.
use blockchain_application.Prelude.{ℕ, String, Bool, Option, List}
use blockchain_application.Prelude.Dict.{Dict}
use blockchain_application.Clock.{Clock}
use blockchain_application.Messages.Transaction.{Transaction}
use blockchain_application.Messages.BlockHeader.{BlockHeader}
use blockchain_application.Messages.Vote.{Phase, Vote}

-- `msg_type` with the payload that belongs to it. `sender` is the payload's `_from`.
pub data Message : Type 0 where
  proposal : (header : BlockHeader) (tx_hashes : List String) (round : ℕ) → Message
  vote : (phase : Phase) (vote : Vote) → Message
  body_request : (round : ℕ) (tx_hashes : List String) (sender : String) → Message
  body_response : (round : ℕ) (bodies : List Transaction) (sender : String) → Message

pub record NetworkBody : Type 0 where
  pub from_node : String
  pub to_node : String
  pub message : Message

pub record LogMessage : Type 0 where
  pub height : ℕ
  pub round : ℕ
  pub body : NetworkBody

-- `message_state`
pub data Sending : Type 0 where
  succeeded : (delay : ℕ) → Sending
  duplicated dropped blocked unblocked : Sending
  rate_limited : (until : ℕ) → Sending

pub data Direction : Type 0 where
  sent recv : Direction

-- The reasons of `_accept_header`.
pub data Reason : Type 0 where
  wrong_height wrong_parent wrong_proposer bad_signature : Reason

-- The events that the engines log, with what their messages show.
pub data ConsensusEvent : Type 0 where
  round_timeout : ConsensusEvent
  invalid_block : (event_index : ℕ) (block_hash : String) → ConsensusEvent
  header_rejected : (proposer : String) (reason : Reason) → ConsensusEvent
  body_requested : (missing : ℕ) (proposer : String) → ConsensusEvent
  body_sent : (bodies : ℕ) (requester : String) → ConsensusEvent
  body_received : (added bodies : ℕ) → ConsensusEvent
  vote_outside : (phase : Phase) (validator : String) (height : ℕ) → ConsensusEvent
  vote_forged vote_duplicated : (phase : Phase) → ConsensusEvent
  prevote_quorum precommit_quorum : (block_hash : String) → ConsensusEvent
  equivocate_vote :
      (phase : Phase) (block_hash : String) (peers : ℕ) (conflicting : String) (others : ℕ)
      → ConsensusEvent
  equivocate_proposal :
      (block_hash : String) (peers : ℕ) (conflicting : String) (others : ℕ) → ConsensusEvent

pub data LogEntry : Type 0 where
  network : (ts : ℕ) → Direction → LogMessage → Option Sending → LogEntry
  consensus : (ts height round : ℕ) → ConsensusEvent → (node : String) → LogEntry

-- What the clock can call: `_deliver` and a node's `_round_timeout`.
pub data Callback : Type 0 where
  deliver : LogMessage → Callback
  timeout : (node_id : String) → Callback

pub record NetworkConfig : Type 0 where
  pub min_delay : ℕ
  pub max_delay : ℕ
  pub drop_rate : ℕ
  pub duplicate_rate : ℕ
  pub reorder_list : List ℕ
  pub stabilized : Bool
  pub bounded_delay : ℕ
  pub rate_limit : ℕ
  pub rate_window : ℕ
  pub block_duration : ℕ

-- `_log_reorder` is never used, and `log_path` only names the file.
pub record Network : Type 0 where
  pub config : NetworkConfig
  pub clock : Clock Callback
  -- the keys of `nodes`
  pub nodes : List String
  pub log_buffer : List LogEntry
  pub order_index : ℕ
  -- the state of `rng`: its seed, and how many numbers were drawn
  pub seed : ℕ
  pub drawn : ℕ
  pub send_times : Dict String (List ℕ)
  pub blocked_until : Dict (String × String) ℕ
