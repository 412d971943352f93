-- ===== src/Engine/Termination/Proposing.antt =====
-- What `_propose` and `_handle_proposal_local` return with, given what a prevote does.
use blockchain_application.Prelude.{
  ℕ, ◌≡◌, String, ◌||◌, not, Option, none, some, ◌==◌, string_eq, nat_eq,
}
use blockchain_application.Prelude.Dict
use blockchain_application.Prelude.Dict.{lookup-insert}
use blockchain_application.Crypto.Signing.{Crypto}
use blockchain_application.Messages.Block.{Block}
use blockchain_application.Engine.Types.{at_propose, Sys, with_cs}
use blockchain_application.Engine.Chain.{log, log_at}
use blockchain_application.Engine.Validation.{validate_block, block_fault, log_fault}
use blockchain_application.Engine.Votes.{Method, send_to, broadcast}
use blockchain_application.Engine.Proposals.{announce, equivocate_proposal, put_proposal}
use blockchain_application.Engine.Rounds
use blockchain_application.Engine.Termination.{Returns, Returns-if, Returns-class}

-- The same votes, round and validators.
pub record Like (s t : Sys) : Type 0 where
  pub votes : t.engine.cs.votes ≡ s.engine.cs.votes
  pub round : t.engine.cs.round ≡ s.engine.cs.round
  pub sets : t.engine.validators ≡ s.engine.validators

-- What `_propose` returns with, given what a prevote does.
module _ (C : Crypto) (draw : ℕ → ℕ → ℕ) (enter : ℕ → Method) (P : Sys → Type 0) (s : Sys)
    (settled : (t : Sys) → Like s t → P t)
    (voting : (h : String) (t : Sys)
      → Like s t
      → Returns P (Rounds.send_prevote C draw enter h t)) where
  log_fault-Like :
      (block : Block) (fault : Option ℕ) (t : Sys) → Like s t → Like s (log_fault C block fault t)
  unfolding log_fault log log_at
  log_fault-Like block none t l = l
  log_fault-Like block (some i) t l = record { votes = l.votes; round = l.round; sets = l.sets }

  pub handle_proposal_local-Returns :
      (block : Block) (round : ℕ) (t : Sys)
      → Like s t
      → Returns P (Rounds.handle_proposal_local C draw enter block round t)
  unfolding Rounds.handle_proposal_local validate_block
  handle_proposal_local-Returns block round t l =
      let t₁ =
        with_cs (λ cs. record cs { proposals = Dict.set_default round block cs.proposals }) t in
      let l₁ : Like s t₁ = record { votes = l.votes; round = l.round; sets = l.sets } in
      Returns-if P
        (not (round == t₁.engine.cs.round) || not (Rounds.is_step t₁.engine.cs.step at_propose)) _ _
        (λ _. settled t₁ l₁)
        (λ _. voting _ _ (log_fault-Like block (block_fault C t₁.engine block round) t₁ l₁))

  pub propose-Returns : (t : Sys) → Like s t → Returns P (Rounds.propose C draw enter t)
  unfolding Rounds.propose announce equivocate_proposal put_proposal broadcast send_to log_at
  propose-Returns t l =
      Returns-class P t.engine.class _ _
        (handle_proposal_local-Returns _ t.engine.cs.round _
          (record { votes = l.votes; round = l.round; sets = l.sets }))
        (handle_proposal_local-Returns _ t.engine.cs.round _
          (record { votes = l.votes; round = l.round; sets = l.sets }))
