-- ===== src/Engine/Proposals.antt =====
-- The blocks that `_propose` builds, for either class, and how a proposal is announced.
use blockchain_application.Prelude.{ℕ, ◌+◌, none, some, map, length, nat_eq}
use blockchain_application.Prelude.Dict
use blockchain_application.Crypto.Signing.{Crypto}
use blockchain_application.Execution.{state_root, apply_all, tx_root}
use blockchain_application.Messages.Transaction
use blockchain_application.Messages.Transaction.{Transaction}
use blockchain_application.Messages.BlockHeader
use blockchain_application.Messages.Block
use blockchain_application.Messages.Block.{Block}
use blockchain_application.Network.Types.{Message, ConsensusEvent}
use blockchain_application.Engine.Types.{Engine, Sys, with_cs}
use blockchain_application.Engine.Chain.{parent_hash, logical_timestamp, log_at}
use blockchain_application.Engine.Votes.{peer_halves, send_to, broadcast}

module _ (C : Crypto) where
  -- A block of the whole mempool on the present state, with a shift of the logical time stamp:
  -- none in `ConsensusEngine._propose`, and `ts_offset` in `build` of `ByzantineEngine._propose`.
  unfoldable pub build_block : Engine → ℕ → ℕ → Block
  build_block e round ts_offset = record {
    header = BlockHeader.sign C e.signing_key (record {
      height = e.height;
      parent_hash = parent_hash C e;
      proposer = e.node_id;
      state_root = state_root C (apply_all C e.state_store e.mempool);
      tx_root = tx_root C e.mempool;
      timestamp = logical_timestamp e round + ts_offset;
      signature = none;
    });
    transactions = e.mempool;
  }

  -- A block with a proof of lock is proposed again.
  unfoldable pub block_to_propose : Engine → ℕ → Block
  block_to_propose e round = elim e.cs.valid_block [
    | some block ↦ block
    | none ↦ build_block e round 0
  ]

  unfoldable pub proposal_of : Block → ℕ → Message
  proposal_of block round =
      Message.proposal block.header (map (Transaction.tx_hash C) block.transactions) round

  -- `self.cs.proposals[round_] = block`
  unfoldable pub put_proposal : ℕ → Block → Sys → Sys
  put_proposal round block =
      with_cs (λ cs. record cs { proposals = Dict.insert round block cs.proposals })

  module _ (draw : ℕ → ℕ → ℕ) where
    -- `ConsensusEngine._propose` up to `_handle_proposal_local`, for the block that it chose.
    unfoldable pub announce : Block → Sys → Sys
    announce block s =
        broadcast C draw (proposal_of block s.engine.cs.round)
          (put_proposal s.engine.cs.round block s)

    -- `ByzantineEngine._propose` up to `_handle_proposal_local`.
    unfoldable pub equivocate_proposal : Sys → Sys
    equivocate_proposal s =
        let round = s.engine.cs.round in
        let block_a = build_block s.engine round 0 in
        let block_b = build_block s.engine round 1 in
        let (group_a, group_b) = peer_halves s.engine in
        put_proposal round block_a (
          send_to C draw group_b (proposal_of block_b round) (
            send_to C draw group_a (proposal_of block_a round) (
              log_at round
                (ConsensusEvent.equivocate_proposal (Block.block_hash C block_a) (length group_a)
                  (Block.block_hash C block_b) (length group_b))
                s)))
