-- ===== src/Engine/Validation/Blocks.antt =====
-- What passes `validate_block`, and what an honest or a Byzantine proposer can get through it.
use blockchain_application.Prelude.{
  ℕ, ◌≡◌, ◌↔◌, refl, true, false, none, arith, all, string_eq, nat_eq,
}
use blockchain_application.Crypto.Signing.{Crypto, IsLawful, pubkey_hex}
use blockchain_application.Messages.Transaction
use blockchain_application.Messages.Transaction.{Transaction}
use blockchain_application.Messages.BlockHeader
use blockchain_application.Messages.BlockHeader.{BlockHeader}
use blockchain_application.Messages.Block.{Block}
use blockchain_application.Execution.{state_root, apply_all, tx_root}
use blockchain_application.Engine.Types.{Engine}
use blockchain_application.Engine.Chain.{proposer_for, parent_hash}
use blockchain_application.Engine.Validation.{block_fault, is_valid, accept_header}
use blockchain_application.Engine.Proposals.{build_block}

module _ (C : Crypto) where
  -- `_accept_header` asks for less than `validate_block`, and what it leaves out is exactly the two
  -- roots and the signatures of the transactions.
  pub is_valid_iff :
      (e : Engine) (b : Block) (round : ℕ)
      → (is_valid C e b round ≡ true) ↔ (
          (accept_header C e b.header round ≡ none)
          × (b.header.state_root ≡ state_root C (apply_all C e.state_store b.transactions))
          × (b.header.tx_root ≡ tx_root C b.transactions)
          × (all (Transaction.verify C) b.transactions ≡ true))
  unfolding is_valid block_fault accept_header
  is_valid_iff e b round = ground arith

  -- What two engines must share for the one to accept the other's block.
  pub record SameChain (e e' : Engine) : Type 0 where
    pub heights : e'.height ≡ e.height
    pub ledgers : e'.ledger ≡ e.ledger
    pub states : e'.state_store ≡ e.state_store
    pub sets : e'.validators ≡ e.validators

  module _ (L : IsLawful C) (e e' : Engine) (round ts_offset : ℕ) (chain : SameChain e e')
      (elected : proposer_for e e.height round ≡ e.node_id)
      (own : e.node_id ≡ pubkey_hex C (C.public_key e.signing_key)) where
    parent_hash-same : parent_hash C e' ≡ parent_hash C e
    unfolding parent_hash
    parent_hash-same = rw chain.ledgers

    proposer_for-same : proposer_for e' e'.height round ≡ e.node_id
    unfolding proposer_for
    proposer_for-same = rw (chain.heights, chain.sets) elected

    build_block-verified : BlockHeader.verify C (build_block C e round ts_offset).header ≡ true
    unfolding build_block
    build_block-verified = BlockHeader.verify-sign C L e.signing_key _ own

    build_block-accepted : accept_header C e' (build_block C e round ts_offset).header round ≡ none
    unfolding accept_header build_block BlockHeader.sign
    build_block-accepted =
        ground (arith, chain.heights, parent_hash-same, proposer_for-same, build_block-verified)

    -- For lawful cryptography: the block that the round's proposer, under its own key, builds from
    -- a mempool of correctly signed transactions is valid for every engine on the same chain,
    -- whatever is added to its time stamp.
    pub build_block-is_valid :
        all (Transaction.verify C) e.mempool ≡ true
        → is_valid C e' (build_block C e round ts_offset) round ≡ true
    unfolding build_block BlockHeader.sign
    build_block-is_valid signed =
        (is_valid_iff e' (build_block C e round ts_offset) round).1
          (build_block-accepted, rw chain.states, refl, signed)

  -- A transaction in the mempool whose signature is bad spoils every block built from it: no
  -- engine accepts it in any round.
  pub build_block-spoiled :
      (e e' : Engine) (round ts_offset at : ℕ)
      → all (Transaction.verify C) e.mempool ≡ false
      → is_valid C e' (build_block C e round ts_offset) at ≡ false
  unfolding is_valid block_fault build_block
  build_block-spoiled e e' round ts_offset at bad = ground arith
