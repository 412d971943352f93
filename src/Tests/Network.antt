-- ===== src/Tests/Network.antt =====
-- The theorems on the network, a crash and equivocation at concrete inputs.
use blockchain_application.Prelude.{
  All, List, ◌+◌, ◌≤◌, ◌≡◌, ◌≢◌, refl, false, none, some, [], ◌∷◌, arith, ◌==◌, string_eq, nat_eq,
  length, if◌then◌else◌,
}
use blockchain_application.Prelude.Dict
use blockchain_application.Messages.Vote.{prevote, Vote}
use blockchain_application.Network.{pair_eq}
use blockchain_application.Network.Types.{NetworkBody, Network, Message, timeout}
use blockchain_application.Network
use blockchain_application.Network.Sent.{message_of}
use blockchain_application.Network.Stable.{deliveries, send_each-deliveries}
use blockchain_application.Network.Limit.{Limited}
use blockchain_application.Network.Limit.Traffic.{
  Traffic, wait, post, run_traffic, run_traffic-Limited,
}
use blockchain_application.Engine.Chain.{touch_bucket}
use blockchain_application.Engine.Votes.{send_each, equivocate_vote, peer_halves, tally_with}
use blockchain_application.Engine.Votes.Quiet.{tally_with-quiet}
use blockchain_application.Engine.Votes.Equivocation.{HasSent, equivocate_vote_lem, peer_halves_lem}
use blockchain_application.Engine.Authentic.{IsVoteOf}
use blockchain_application.Quorum.Counting.{count}
use blockchain_application.World.{World, Node, call, deliver_message, start_node}
use blockchain_application.World.Crash.{crash_lem, crashed_in, network_of}
use blockchain_application.Tests.Toy.{toy, toy-IsLawful}
use blockchain_application.Tests.Scenario.{
  run_toy, no_luck, config, engine_of, four, id_of, node, vote_of,
}

abbrev letter : NetworkBody
letter = record {
  from_node = id_of 1;
  to_node = id_of 2;
  message = Message.vote prevote (vote_of 1 prevote);
}

-- A network that lets two messages of a node pass in a window.
abbrev limited : Network
unfolding run_toy
limited = Network.create (record config { rate_limit = 2 })

limited-Limited : Limited (id_of 1) limited
unfolding run_toy Network.create Dict.get_or Dict.lookup
limited-Limited t le = (omega arith, omega arith)

abbrev letters : List Traffic
letters = post 0 0 letter ∷ post 0 0 letter ∷ post 0 0 letter ∷ wait 2500 ∷ post 0 0 letter ∷ []

run_traffic-Limited_example : Limited (id_of 1) (run_traffic no_luck letters limited)
unfolding run_toy Network.create
run_traffic-Limited_example =
    run_traffic-Limited no_luck (id_of 1) letters limited (omega arith) limited-Limited

-- A stabilized network with two entries left in its reorder list.
abbrev calm : Network
unfolding run_toy
calm = Network.create (record config { reorder_list = 7 ∷ 3 ∷ [] })

send_each-deliveries_example :
    (send_each no_luck (id_of 2 ∷ id_of 3 ∷ id_of 4 ∷ []) 0 0 (id_of 1) letter.message calm).clock
    ≡ deliveries
        (7 ∷ 3 ∷ [])
        20
        (id_of 2 ∷ id_of 3 ∷ id_of 4 ∷ [])
        0
        0
        (id_of 1)
        letter.message
        calm.clock
unfolding run_toy Network.create
send_each-deliveries_example =
    send_each-deliveries no_luck 0 0 (id_of 1) letter.message (id_of 2 ∷ id_of 3 ∷ id_of 4 ∷ [])
      calm (refl, refl, refl)

abbrev member : Node
member = record { crashed = false; engine = engine_of 2 [] }

abbrev world : World
unfolding run_toy
world = record { network = node.network; nodes = (id_of 2, member) ∷ [] }

crash_lem_example :
    (start_node toy no_luck 3 (id_of 2) (crashed_in (id_of 2) member world)
      ≡ some (crashed_in (id_of 2) member world))
    × (deliver_message toy no_luck 3 (message_of 0 0 letter) (crashed_in (id_of 2) member world)
        ≡ some (crashed_in (id_of 2) member world))
    × (network_of (call toy no_luck 3 (timeout (id_of 2)) (crashed_in (id_of 2) member world))
        ≡ network_of (call toy no_luck 3 (timeout (id_of 2)) world))
unfolding run_toy
crash_lem_example = crash_lem toy no_luck 3 (id_of 2) member world (message_of 0 0 letter) refl refl

tally_with-quiet_example :
    tally_with (λ block_hash s. none) 0 prevote node ≡ some (touch_bucket 0 node)
unfolding run_toy
tally_with-quiet_example = tally_with-quiet (λ block_hash s. none) 0 prevote node (λ h. omega arith)

peer_halves_lem_example :
    (count (λ x. x == id_of 3) (peer_halves (engine_of 2 [])).0
        + count (λ x. x == id_of 3) (peer_halves (engine_of 2 [])).1
      ≡ (if id_of 3 == id_of 2 then 0 else count (λ x. x == id_of 3) four))
    × (length (peer_halves (engine_of 2 [])).0 ≤ length (peer_halves (engine_of 2 [])).1)
    × (length (peer_halves (engine_of 2 [])).1 ≤ length (peer_halves (engine_of 2 [])).0 + 1)
peer_halves_lem_example = peer_halves_lem (engine_of 2 []) (id_of 3)

equivocate_vote_lem_example :
    let e = node.engine in
    let n = (equivocate_vote toy no_luck prevote "block" node).network in
    let (group_a, group_b) = peer_halves e in
    (a : Vote) × (b : Vote) × (IsVoteOf toy e.height e.cs.round e.node_id a)
    × (IsVoteOf toy e.height e.cs.round e.node_id b)
    × (a.phase ≡ prevote)
    × (b.phase ≡ prevote)
    × (a.block_hash ≡ "block")
    × (b.block_hash ≢ "block")
    × All (HasSent e.height e.cs.round e.node_id (Message.vote prevote a) n) group_a
    × All (HasSent e.height e.cs.round e.node_id (Message.vote prevote b) n) group_b
unfolding run_toy
equivocate_vote_lem_example = equivocate_vote_lem toy toy-IsLawful no_luck prevote "block" node refl
