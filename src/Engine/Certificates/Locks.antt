-- ===== src/Engine/Certificates/Locks.antt =====
-- The part of `Justified` that does not look back at heights that are over.
use blockchain_application.Prelude.{ℕ, ◌≡◌, String, some, List, length}
use blockchain_application.Crypto.Signing.{Crypto}
use blockchain_application.Messages.Block
use blockchain_application.Messages.Block.{Block}
use blockchain_application.Messages.Vote.{Phase, prevote, Vote}
use blockchain_application.Engine.Types.{Engine}
use blockchain_application.Engine.Chain.{bucket}
use blockchain_application.Engine.Authentic.{Authentic}
use blockchain_application.Engine.Induction.{ShowsQuorum}
use blockchain_application.Engine.Certificates.{Justified}

-- The engine has the given validators and genuine votes, its height is the number of its blocks, and
-- a quorum of recorded prevotes of the lock's round stands behind its lock.
pub record Backed (C : Crypto) (vs : List String) (e : Engine) : Type 0 where
  pub auth : Authentic C e
  pub set : e.validators ≡ vs
  pub counted : e.height ≡ length e.ledger
  pub lock :
      (b : Block)
      → e.cs.locked_block ≡ some b
      → (round : ℕ) × (e.cs.locked_round ≡ some round)
        × ShowsQuorum vs (Block.block_hash C b) (bucket round prevote e.cs)

pub Justified-Backed :
    (C : Crypto) (vs : List String) (H : Phase → Vote → Type 0) (e : Engine)
    → Justified C vs H e
    → Backed C vs e
Justified-Backed C vs H e j = record {
  auth = j.auth;
  set = j.set;
  counted = j.counted;
  lock = j.lock;
}
