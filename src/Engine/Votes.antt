-- ===== src/Engine/Votes.antt =====
-- The counting of `_tally`, and the two bodies of `_send_vote`: that of `ConsensusEngine`, and the
-- equivocation of `ByzantineEngine` (src/byzantine.py). What a quorum triggers is a parameter.
pub mod Quiet
pub mod Equivocation
use blockchain_application.Prelude.{
  ℕ, ◌+◌, ◌/◌, String, Option, none, some, List, [], ◌∷◌, not, if◌then◌else◌, ◌==◌, ltb, keep,
  length, take, drop, string_eq, map,
}
use blockchain_application.Prelude.Dict
use blockchain_application.Prelude.Dict.{Dict}
use blockchain_application.Crypto.Encoding.{sort_keys}
use blockchain_application.Crypto.Signing.{Crypto}
use blockchain_application.Messages.Vote
use blockchain_application.Messages.Vote.{Phase, prevote, precommit, Vote}
use blockchain_application.Network
use blockchain_application.Network.Types.{Network, Message, ConsensusEvent}
use blockchain_application.Engine.Types.{
  Step, at_prevote, at_precommit, Engine, honest, byzantine, Sys, quorum, with_cs, with_network,
}
use blockchain_application.Engine.Chain.{log, bucket, touch_bucket, put_vote}

-- A method's effect; `none` is a `RecursionError`.
abbrev pub Method : Type 0
Method = Sys → Option Sys

infixl 5 ◌>>=◌
abbrev pub ◌>>=◌ : Option Sys → (Sys → Option Sys) → Option Sys
none >>= f = none
some s >>= f = f s

-- `counts[v.block_hash] = counts.get(v.block_hash, 0) + 1`
unfoldable pub count_votes : Dict String ℕ → List Vote → Dict String ℕ
count_votes counts [] = counts
count_votes counts (v ∷ vs) =
    count_votes (Dict.insert v.block_hash (Dict.get_or v.block_hash 0 counts + 1) counts) vs

-- The loop over `counts.items()`.
unfoldable pub react_all : (String → Method) → Dict String ℕ → Method
react_all react [] s = some s
react_all react ((block_hash, count) ∷ counts) s =
    (if ltb count (quorum s.engine) then some s else react block_hash s) >>= react_all react counts

-- `_tally`, over what a quorum for a hash does.
unfoldable pub tally_with : (String → Method) → ℕ → Phase → Method
tally_with react round phase s =
    let s' = touch_bucket round s in
    let votes = bucket round phase s'.engine.cs in
    if ltb (length votes) (quorum s.engine)
    then some s'
    else react_all react (count_votes [] (Dict.values votes)) s'

abbrev pub step_of : Phase → Step
step_of prevote = at_prevote
step_of precommit = at_precommit

abbrev pub sorted_texts : List String → List String
sorted_texts xs = Dict.keys (sort_keys (map (λ x. (x, x)) xs))

-- `_peer_halves`
unfoldable pub peers : Engine → List String
peers e = sorted_texts (keep (λ v. not (v == e.node_id)) e.validators)

unfoldable pub peer_halves : Engine → List String × List String
peer_halves e = let mid = length (peers e) / 2 in (take mid (peers e), drop mid (peers e))

abbrev pub sixty_four_b : String
sixty_four_b = "bbbbbbbbbbbbbbbbbbbbbbbbbbbbbbbbbbbbbbbbbbbbbbbbbbbbbbbbbbbbbbbb"

abbrev pub sixty_four_c : String
sixty_four_c = "cccccccccccccccccccccccccccccccccccccccccccccccccccccccccccccccc"

unfoldable pub conflicting_hash : String → String
conflicting_hash block_hash = if block_hash == sixty_four_b then sixty_four_c else sixty_four_b

-- The loop of `_send_to`.
unfoldable pub send_each : (ℕ → ℕ → ℕ) → List String → ℕ → ℕ → String → Message → Network → Network
send_each draw [] height round sender message n = n
send_each draw (target ∷ targets) height round sender message n =
    send_each draw targets height round sender message (
      Network.send draw height round
        (record { from_node = sender; to_node = target; message = message }) n)

module _ (C : Crypto) where
  -- The signed vote of the engine for its present height and round.
  unfoldable pub own_vote : Engine → Phase → String → Vote
  own_vote e phase block_hash = Vote.sign C e.signing_key (record {
    validator = e.node_id;
    height = e.height;
    round = e.cs.round;
    phase = phase;
    block_hash = block_hash;
    signature = none;
  })

  module _ (draw : ℕ → ℕ → ℕ) where
    -- `_send_to` of src/byzantine.py, and `_send_direct` of the engine for one target. A send
    -- changes neither the height nor the round.
    unfoldable pub send_to : List String → Message → Sys → Sys
    send_to targets message s =
        with_network
          (send_each draw targets s.engine.height s.engine.cs.round s.engine.node_id message) s

    unfoldable pub broadcast : Message → Sys → Sys
    broadcast message s =
        with_network
          (Network.broadcast draw s.engine.height s.engine.cs.round s.engine.node_id message) s

    -- The rest of `ConsensusEngine._send_vote` after the test of its bucket, up to `_tally`.
    unfoldable pub cast_vote : Phase → String → Sys → Sys
    cast_vote phase block_hash s =
        let vote = own_vote s.engine phase block_hash in
        broadcast (Message.vote phase vote) (
          put_vote s.engine.cs.round phase s.engine.node_id vote
            (with_cs (λ cs. record cs { step = step_of phase }) s))

    -- The same of `ByzantineEngine._send_vote`: each half of the peers gets another vote.
    unfoldable pub equivocate_vote : Phase → String → Sys → Sys
    equivocate_vote phase block_hash s =
        let (group_a, group_b) = peer_halves s.engine in
        let conflicting = conflicting_hash block_hash in
        let vote_a = own_vote s.engine phase block_hash in
        let vote_b = own_vote s.engine phase conflicting in
        send_to group_b (Message.vote phase vote_b) (
          send_to group_a (Message.vote phase vote_a) (
            log
              (ConsensusEvent.equivocate_vote phase block_hash (length group_a) conflicting
                (length group_b))
              (with_cs (λ cs. record cs { step = step_of phase })
                (put_vote s.engine.cs.round phase s.engine.node_id vote_a s))))

    -- `_send_vote` of either class, over the `_tally` of the phase.
    unfoldable pub send_vote_with : (ℕ → Method) → Phase → String → Method
    send_vote_with tally phase block_hash s =
        let s' = touch_bucket s.engine.cs.round s in
        if Dict.has s.engine.node_id (bucket s.engine.cs.round phase s'.engine.cs)
        then some s'
        else elim s.engine.class [
          | honest ↦ tally s.engine.cs.round (cast_vote phase block_hash s')
          | byzantine ↦ tally s.engine.cs.round (equivocate_vote phase block_hash s')
        ]
