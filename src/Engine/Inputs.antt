-- ===== src/Engine/Inputs.antt =====
-- A node's engine as a state machine that is driven by messages and by its round timer
-- (`Node.handle` of src/node.py and `_round_timeout` of src/consensus/engine.py).
use blockchain_application.Prelude.{ℕ, some, List, [], ◌∷◌}
use blockchain_application.Crypto.Signing.{Crypto}
use blockchain_application.Network.Types.{
  Network, Message, proposal, vote, body_request, body_response,
}
use blockchain_application.Engine.Votes.{Method, ◌>>=◌}
use blockchain_application.Engine.Handlers.{
  on_proposal, on_vote, on_body_request, on_body_response, on_timeout,
}

-- What can happen to a running engine; `elsewhere` is what other nodes and the clock have done to
-- the network in the meantime.
pub data Input : Type 0 where
  receive : Message → Input
  expire : Input
  elsewhere : Network → Input

module _ (C : Crypto) (draw : ℕ → ℕ → ℕ) (depth : ℕ) where
  -- The dispatch of `handle` on the message's type.
  unfoldable pub dispatch : Message → Method
  dispatch (proposal header tx_hashes round) s = on_proposal C draw depth header tx_hashes round s
  dispatch (vote phase v) s = on_vote C draw depth phase v s
  dispatch (body_request round tx_hashes sender) s =
      on_body_request C draw depth round tx_hashes sender s
  dispatch (body_response round bodies sender) s = on_body_response C draw depth round bodies s

  unfoldable pub perform : Input → Method
  perform (receive message) s = dispatch message s
  perform expire s = on_timeout C draw depth s
  perform (elsewhere n) s = some (record s { network = n })

  unfoldable pub perform_all : List Input → Method
  perform_all [] s = some s
  perform_all (i ∷ inputs) s = perform i s >>= perform_all inputs
