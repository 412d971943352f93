-- ===== src/Engine/Validation.antt =====
-- `validate_block` and `_accept_header` of `ConsensusEngine`.
pub mod Blocks
use blockchain_application.Prelude.{
  ℕ, Bool, true, false, Option, none, some, not, if◌then◌else◌, ◌==◌, all, string_eq, nat_eq,
}
use blockchain_application.Crypto.Signing.{Crypto}
use blockchain_application.Messages.Transaction
use blockchain_application.Messages.BlockHeader
use blockchain_application.Messages.BlockHeader.{BlockHeader}
use blockchain_application.Messages.Block
use blockchain_application.Messages.Block.{Block}
use blockchain_application.Execution.{state_root, apply_all, tx_root}
use blockchain_application.Network.Types.{
  Reason, wrong_height, wrong_parent, wrong_proposer, bad_signature, ConsensusEvent,
}
use blockchain_application.Engine.Types.{Engine, Sys}
use blockchain_application.Engine.Chain.{proposer_for, parent_hash, log}

module _ (C : Crypto) where
  -- The first test that the block fails, by its index in the log.
  unfoldable pub block_fault : Engine → Block → ℕ → Option ℕ
  block_fault e block round =
      let h = block.header in
      if not (h.height == e.height)
      then some 0
      else if not (h.parent_hash == parent_hash C e)
      then some 1
      else if not (h.proposer == proposer_for e e.height round)
      then some 2
      else if not (BlockHeader.verify C h)
      then some 3
      else if not (h.state_root == state_root C (apply_all C e.state_store block.transactions))
      then some 4
      else if not (h.tx_root == tx_root C block.transactions)
      then some 5
      else if not (all (Transaction.verify C) block.transactions)
      then some 6
      else none

  unfoldable pub is_valid : Engine → Block → ℕ → Bool
  is_valid e block round = elim (block_fault e block round) [ none ↦ true | some _ ↦ false ]

  -- The log line of a block that fails.
  unfoldable pub log_fault : Block → Option ℕ → Sys → Sys
  log_fault block none s = s
  log_fault block (some i) s = log (ConsensusEvent.invalid_block i (Block.block_hash C block)) s

  unfoldable pub validate_block : Block → ℕ → Sys → Bool × Sys
  validate_block block round s =
      (is_valid s.engine block round, log_fault block (block_fault s.engine block round) s)

  -- `none` is `(True, "accepted")`.
  unfoldable pub accept_header : Engine → BlockHeader → ℕ → Option Reason
  accept_header e h round =
      if not (h.height == e.height)
      then some wrong_height
      else if not (h.parent_hash == parent_hash C e)
      then some wrong_parent
      else if not (h.proposer == proposer_for e e.height round)
      then some wrong_proposer
      else if not (BlockHeader.verify C h)
      then some bad_signature
      else none
