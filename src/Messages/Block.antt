-- ===== src/Messages/Block.antt =====
-- `Block` of src/types/messages.py.
use blockchain_application.Prelude.{String, List}
use blockchain_application.Crypto.Signing.{Crypto}
use blockchain_application.Messages.Transaction.{Transaction}
use blockchain_application.Messages.BlockHeader
use blockchain_application.Messages.BlockHeader.{BlockHeader}

pub record Block : Type 0 where
  pub header : BlockHeader
  pub transactions : List Transaction

module _ (C : Crypto) where
  unfoldable pub block_hash : Block → String
  block_hash b = BlockHeader.block_hash C b.header
