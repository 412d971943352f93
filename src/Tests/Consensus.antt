-- ===== src/Tests/Consensus.antt =====
-- The engine's guarantees (src/consensus/engine.py) at the messages of one round.
use blockchain_application.Prelude.{ℕ, ◌≡◌, refl, some, List, [], arith, ◌==◌, string_eq, nat_eq}
use blockchain_application.Messages.Block
use blockchain_application.Messages.Vote.{Phase, prevote, precommit}
use blockchain_application.Engine.Chain.{bucket}
use blockchain_application.Engine.Replay.{Extends}
use blockchain_application.Engine.Recorded.{recorded}
use blockchain_application.Engine.Monotone.{Forward}
use blockchain_application.Engine.Authentic.{Authentic}
use blockchain_application.Engine.Guarantees.{
  perform_all-Extends, perform_all-Forward, perform_all-Authentic, engines_agree,
  prevote_as_precommit,
}
use blockchain_application.Engine.Types.{Sys}
use blockchain_application.Engine.Rounds
use blockchain_application.Engine.Inputs.{perform}
use blockchain_application.Engine.Termination.{Returns, Entered, pending}
use blockchain_application.Engine.Termination.Depth.{enter_round-Entered}
use blockchain_application.Engine.Termination.Handlers.{perform_returns}
use blockchain_application.Tests.Toy.{toy, toy-IsLawful}
use blockchain_application.Tests.Scenario.{
  no_luck, proposal, run_toy, node, messages, final, final_lem, half, half_lem, prevotes, id_of,
  block, vote_of, replayed, replayed_lem,
}

perform_all-Extends_example :
    (blocks : List Block.Block) × Extends toy node.engine final.engine blocks
perform_all-Extends_example = perform_all-Extends toy no_luck 3 messages node final final_lem

perform_all-Forward_example : Forward node.engine final.engine
perform_all-Forward_example = perform_all-Forward toy no_luck 3 messages node final final_lem

no_votes_yet : (round : ℕ) (phase : Phase) → bucket round phase node.engine.cs ≡ []
unfolding run_toy
no_votes_yet round prevote = refl
no_votes_yet round precommit = refl

pub node-Authentic : Authentic toy node.engine
unfolding run_toy
node-Authentic = record {
  member = refl;
  own = refl;
  stored = λ round phase.
      rw (no_votes_yet round phase) record { once = tt; members = λ a v e. absurd (ground arith) };
  cast = λ round phase a v e. absurd (ground (arith, no_votes_yet round phase));
}

perform_all-Authentic_example : Authentic toy final.engine
perform_all-Authentic_example =
    perform_all-Authentic toy no_luck 3 toy-IsLawful messages node final final_lem node-Authentic

half-Authentic : Authentic toy half.engine
half-Authentic =
    perform_all-Authentic toy no_luck 3 toy-IsLawful prevotes node half half_lem node-Authentic

engines_agree_example : Block.block_hash toy block ≡ Block.block_hash toy block
unfolding run_toy
engines_agree_example =
    engines_agree toy no_luck 3 half.engine half.engine (λ a. a == id_of 3) 0 prevote
      (Block.block_hash toy block) (Block.block_hash toy block) half-Authentic half-Authentic refl
      refl (omega arith) (λ a v w honest e e'. ground arith) (omega arith) (omega arith)

prevote_as_precommit_example :
    recorded replayed.engine.cs 0 precommit (id_of 1) ≡ some (vote_of 1 prevote)
unfolding run_toy recorded
prevote_as_precommit_example =
    prevote_as_precommit toy no_luck 3 (vote_of 1 prevote) node replayed refl refl refl refl refl
      replayed_lem refl

perform_returns_example : (t : Sys) × (perform toy no_luck 3 proposal node ≡ some t)
unfolding run_toy pending
perform_returns_example = perform_returns toy no_luck 3 proposal node (omega arith) (omega arith)

enter_round-Entered_example : Returns (Entered 1) (Rounds.enter_round toy no_luck 1 1 node)
unfolding run_toy pending
enter_round-Entered_example =
    enter_round-Entered toy no_luck 1 1 node refl (omega arith) (omega arith)
