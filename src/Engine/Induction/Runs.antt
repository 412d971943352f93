-- ===== src/Engine/Induction/Runs.antt =====
-- The induction principle over any sequence of messages and timer expiries.
use blockchain_application.Prelude.{ℕ, String, List, [], ◌∷◌}
use blockchain_application.Crypto.Signing.{Crypto}
use blockchain_application.Messages.Vote.{Phase, Vote}
use blockchain_application.Network.Types.{Network}
use blockchain_application.Engine.Types.{Sys}
use blockchain_application.Engine.Inputs.{Input, receive, expire, elsewhere, perform, perform_all}
use blockchain_application.Engine.Induction.{
  Anything, Hears, Hears-Anything, Invariant, Then, Then-bind,
}
use blockchain_application.Engine.Induction.Handlers.{dispatch-Then, on_timeout-Then}

-- What is said of the votes that the inputs bring, each with the type of its message.
abbrev pub AllHeard : (Phase → Vote → Type 0) → List Input → Type 0
AllHeard H [] = Unit
AllHeard H (receive message ∷ inputs) = Hears H message × AllHeard H inputs
AllHeard H (expire ∷ inputs) = AllHeard H inputs
AllHeard H (elsewhere n ∷ inputs) = AllHeard H inputs

pub AllHeard-Anything : (inputs : List Input) → AllHeard Anything inputs
AllHeard-Anything [] = tt
AllHeard-Anything (receive message ∷ inputs) = (Hears-Anything message, AllHeard-Anything inputs)
AllHeard-Anything (expire ∷ inputs) = AllHeard-Anything inputs
AllHeard-Anything (elsewhere n ∷ inputs) = AllHeard-Anything inputs

-- For a property that does not depend on the network.
module _ {C : Crypto} {draw : ℕ → ℕ → ℕ} {vs : List String} {H : Phase → Vote → Type 0}
    {I : Sys → Type 0} (K : Invariant C draw vs H I) (depth : ℕ)
    (net : (s : Sys) (n : Network) → I s → I (record s { network = n })) where
  pub perform_all-Then :
      (inputs : List Input) (s : Sys)
      → AllHeard H inputs
      → I s
      → Then I (perform_all C draw depth inputs s)
  unfolding perform_all perform
  perform_all-Then [] s heard h = h
  perform_all-Then (receive message ∷ inputs) s (now, later) h =
      Then-bind I I (perform C draw depth (receive message) s) (perform_all C draw depth inputs)
        (dispatch-Then K depth message s now h) (λ t. perform_all-Then inputs t later)
  perform_all-Then (expire ∷ inputs) s later h =
      Then-bind I I (perform C draw depth expire s) (perform_all C draw depth inputs)
        (on_timeout-Then K depth s h) (λ t. perform_all-Then inputs t later)
  perform_all-Then (elsewhere n ∷ inputs) s later h =
      perform_all-Then inputs (record s { network = n }) later (net s n h)
