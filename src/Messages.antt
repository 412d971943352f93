-- ===== src/Messages.antt =====
-- src/types/messages.py: transactions, headers, blocks and votes, with the payload that each signs.
pub mod Transaction
pub mod BlockHeader
pub mod Block
pub mod Vote
pub mod Address
