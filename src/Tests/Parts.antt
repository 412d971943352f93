-- ===== src/Tests/Parts.antt =====
-- The theorems on state, blocks, clock and codecs at concrete inputs.
use blockchain_application.Prelude.{
  ℕ, ◌+◌, ◌%◌, ◌≤◌, ◌≡◌, ◌↔◌, ◌≢◌, refl, String, true, false, none, some, [], ◌∷◌, arith, string_eq,
  nat_eq, all, All, ◌<>◌, contains,
}
use blockchain_application.Prelude.Dict
use blockchain_application.Crypto.Encoding.{str}
use blockchain_application.Crypto.Signing
use blockchain_application.Crypto.Signing.{ctx_vote, pubkey_hex, verify-sign_lem}
use blockchain_application.Messages.Transaction
use blockchain_application.Messages.Transaction.{Transaction}
use blockchain_application.Messages.Vote.{prevote}
use blockchain_application.Execution
use blockchain_application.Execution.{apply, apply_all, can_apply, has_separator, has_seen, owner}
use blockchain_application.Execution.Ownership.{Written, apply_all-Written}
use blockchain_application.Execution.Replay.{apply_replayed, apply_all_duplicate}
use blockchain_application.Clock
use blockchain_application.Clock.{Clock, Event, cancel, fire, pop, schedule}
use blockchain_application.Clock.Heap.{IsValid, Before}
use blockchain_application.Clock.Order.{Leaves, pop_fires, pop-IsValid, schedule-IsValid}
use blockchain_application.Clock.Cancel.{scheduling, popping, fired, cancelled_never_fires}
use blockchain_application.Engine.Types.{faults, quorum_of}
use blockchain_application.Engine.Validation.{is_valid, accept_header}
use blockchain_application.Engine.Validation.Blocks.{
  is_valid_iff, build_block-is_valid, build_block-spoiled,
}
use blockchain_application.Engine.Votes.{count_votes}
use blockchain_application.Engine.Proposals.{build_block}
use blockchain_application.Quorum.{quorums_overlap_iff}
use blockchain_application.Quorum.Votes.{count_votes-votes_for, votes_for}
use blockchain_application.Tests.Toy.{toy, toy-IsLawful}
use blockchain_application.Tests.Scenario.{run_toy, id_of, engine_of, block, vote_of}

abbrev transfer : ℕ → String → Transaction
unfolding run_toy
transfer nonce value = Transaction.sign toy (1 ∷ []) (record {
  sender = id_of 1;
  key = id_of 1 <> "/balance";
  value = value;
  nonce = nonce;
  signature = none;
})

abbrev forged : Transaction
unfolding run_toy
forged = record (transfer 1 "9") { value = "99" }

apply_all-Written_example :
    Written toy Execution.empty
      (transfer 1 "5" ∷ forged ∷ [])
      "01/balance"
      (apply_all toy Execution.empty (transfer 1 "5" ∷ forged ∷ []))
apply_all-Written_example =
    apply_all-Written toy Execution.empty (transfer 1 "5" ∷ forged ∷ []) "01/balance"

apply_replayed_example :
    apply toy (apply toy Execution.empty (transfer 1 "5")).0 (transfer 1 "6")
    ≡ ((apply toy Execution.empty (transfer 1 "5")).0, false)
unfolding run_toy
apply_replayed_example =
    apply_replayed toy Execution.empty (transfer 1 "5") [] (transfer 1 "6") refl refl refl

apply_all_duplicate_example :
    apply_all toy Execution.empty (transfer 1 "5" ∷ transfer 2 "6" ∷ transfer 1 "5" ∷ [])
    ≡ apply_all toy Execution.empty (transfer 1 "5" ∷ transfer 2 "6" ∷ [])
apply_all_duplicate_example =
    apply_all_duplicate toy Execution.empty [] (transfer 1 "5") (transfer 2 "6" ∷ []) []

is_valid_iff_example : (is_valid toy (engine_of 4 []) block 0 ≡ true) ↔ (
    (accept_header toy (engine_of 4 []) block.header 0 ≡ none)
    × (block.header.state_root
        ≡ Execution.state_root toy (apply_all toy Execution.empty block.transactions))
    × (block.header.tx_root ≡ Execution.tx_root toy block.transactions)
    × (all (Transaction.verify toy) block.transactions ≡ true))
is_valid_iff_example = is_valid_iff toy (engine_of 4 []) block 0

build_block-is_valid_example :
    is_valid toy (engine_of 4 []) (build_block toy (engine_of 1 (transfer 1 "5" ∷ [])) 0 1) 0 ≡ true
unfolding run_toy
build_block-is_valid_example =
    build_block-is_valid toy toy-IsLawful (engine_of 1 (transfer 1 "5" ∷ [])) (engine_of 4 []) 0 1
      (record { heights = refl; ledgers = refl; states = refl; sets = refl }) refl refl refl

build_block-spoiled_example :
    is_valid toy (engine_of 4 []) (build_block toy (engine_of 1 (forged ∷ [])) 0 0) 0 ≡ false
unfolding run_toy
build_block-spoiled_example =
    build_block-spoiled toy (engine_of 1 (forged ∷ [])) (engine_of 4 []) 0 0 0 refl

-- Three timers, of which the second is due first.
abbrev timers : Clock String
unfolding schedule Clock.push
timers = schedule 8 "c" (schedule 2 "b" (schedule 5 "a" Clock.fresh))

timers-IsValid : IsValid timers
unfolding schedule Clock.push
timers-IsValid = schedule-IsValid 8 "c" (schedule 2 "b" (schedule 5 "a" Clock.fresh)) (
    schedule-IsValid 2 "b" (schedule 5 "a" Clock.fresh) (
      schedule-IsValid 5 "a" Clock.fresh
        (record { sorted = tt; distinct = tt; future = tt; numbered = tt })))

schedule-IsValid_example : IsValid (schedule 1 "d" timers)
schedule-IsValid_example = schedule-IsValid 1 "d" timers timers-IsValid

pop-IsValid_example : Leaves (pop none timers) IsValid
pop-IsValid_example = pop-IsValid none timers timers-IsValid

abbrev first : Event String
first = record { time = 2; id = 2; callback = "b" }

abbrev others : Clock String
others = record {
  now = 2;
  heap =
      record { time = 5; id = 1; callback = "a" }
      ∷ record { time = 8; id = 3; callback = "c" }
      ∷ [];
  seq = 3;
  cancelled = [];
}

pop_fires_example :
    (timers.now ≤ first.time)
    × (others.now ≡ first.time)
    × (contains timers.cancelled first.id ≡ false)
    × All (Before first) others.heap
    × IsValid others
unfolding schedule Clock.push pop nat_eq
pop_fires_example = pop_fires none timers first others timers-IsValid refl

cancelled_never_fires_example :
    All
      (λ e. e.id ≢ 2)
      (fired (popping none ∷ scheduling 1 "d" ∷ popping none ∷ []) (cancel (some 2) timers))
unfolding schedule Clock.push
cancelled_never_fires_example =
    cancelled_never_fires 2 (popping none ∷ scheduling 1 "d" ∷ popping none ∷ []) timers
      timers-IsValid (omega arith)

quorums_overlap_iff_example : (7 + (faults 7 + 1) ≤ quorum_of 7 + quorum_of 7) ↔ (7 % 3 ≡ 1)
quorums_overlap_iff_example = quorums_overlap_iff 7 (omega arith)

verify-sign_lem_example :
    Signing.verify toy
      (pubkey_hex toy (toy.public_key (9 ∷ [])))
      ctx_vote
      (str "block")
      (Signing.sign toy (9 ∷ []) ctx_vote (str "block"))
    ≡ true
verify-sign_lem_example = verify-sign_lem toy toy-IsLawful (9 ∷ []) ctx_vote (str "block")

count_votes-votes_for_example :
    Dict.get_or "h" 0 (count_votes [] (vote_of 1 prevote ∷ vote_of 2 prevote ∷ []))
    ≡ votes_for "h" (vote_of 1 prevote ∷ vote_of 2 prevote ∷ [])
count_votes-votes_for_example =
    count_votes-votes_for (vote_of 1 prevote ∷ vote_of 2 prevote ∷ []) "h"
