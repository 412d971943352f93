-- ===== src/Network/Limit/Passing.antt =====
-- What `send` of src/network/simulator.py does after the rate limit, for the rate limit.
use blockchain_application.Prelude.{
  ℕ, ◌≡◌, ◌∙◌, refl, inl, inr, String, some, ltb, string_eq, arith, Bool-cases,
}
use blockchain_application.Clock
use blockchain_application.Network.Types.{
  LogMessage, LogEntry, Network, sent, succeeded, duplicated, dropped,
}
use blockchain_application.Network.{
  pair_eq, append_log, log, random, uniform, drops, base_delay, reordered_delay, schedule_delivery,
  transmit, send_unlimited,
}
use blockchain_application.Network.Limit.{
  Alike, Limited, Room, transmitted, Limited-more, Limited-sent, Limited-of_Room,
}

module _ (sender : String) where
  module _ (draw : ℕ → ℕ → ℕ) where
    -- Only the position in the generator or in the reorder list has changed.
    abbrev Drawn : Network → Network → Type 0
    Drawn n m = Alike n m × (m.log_buffer ≡ n.log_buffer)

    base_delay-Drawn : (n : Network) → Drawn n (base_delay draw n).1
    unfolding base_delay uniform random
    base_delay-Drawn n = ((ground arith, ground arith, ground arith), ground arith)

    reordered_delay-Drawn : (delay : ℕ) (n : Network) → Drawn n (reordered_delay draw delay n).1
    unfolding reordered_delay
    reordered_delay-Drawn delay n = ((ground arith, ground arith, ground arith), ground arith)

    drops-Drawn : (n : Network) → Drawn n (drops draw n).1
    unfolding drops random
    drops-Drawn n = ((ground arith, ground arith, ground arith), ground arith)

    transmit-Limited :
        (message : LogMessage) (n : Network)
        → Room message.body.from_node sender n
        → Limited sender (transmit draw message n)
    unfolding transmit log append_log random schedule_delivery Clock.schedule
    transmit-Limited message n room =
        let (d₀, n₁) = base_delay draw n in
        let (delay, n₂) = reordered_delay draw d₀ n₁ in
        let n₃ = (random draw (log sent message (some (succeeded delay)) n₂)).1 in
        let ((config₁, now₁, times₁), log₁) = base_delay-Drawn n in
        let ((config₂, now₂, times₂), log₂) = reordered_delay-Drawn d₀ n₁ in
        let q : Limited sender n₃ =
          Limited-sent sender delay message n n₃ (config₂ ∙ config₁, now₂ ∙ now₁, times₂ ∙ times₁)
            (rw (log₂ ∙ log₁, now₂ ∙ now₁) refl) room in
        elim (Bool-cases (
          ltb (random draw (log sent message (some (succeeded delay)) n₂)).0
            n.config.duplicate_rate)) [
              | inl twice ↦ rw twice (
                  Limited-more sender (LogEntry.network n₃.clock.now sent message (some duplicated))
                    n₃ (log sent message (some duplicated) n₃) (refl, refl, refl) refl (λ t. refl)
                    q)
              | inr once ↦ rw once q
            ]

    pub send_unlimited-Limited :
        (message : LogMessage) (n : Network)
        → Room message.body.from_node sender n
        → Limited sender (send_unlimited draw message n)
    unfolding send_unlimited log append_log
    send_unlimited-Limited message n room =
        let n₁ = (drops draw n).1 in
        let ((config, now, times), logged) = drops-Drawn n in
        let room₁ : Room message.body.from_node sender n₁ = λ t le.
          let (few, within) = room t (rw now at le) in
          let total : transmitted sender t n₁ ≡ transmitted sender t n = rw (config, logged) refl in
          rw (total, config, now, times) (few, within) in
        elim (Bool-cases (drops draw n).0) [
          | inl lost ↦ rw lost (
              Limited-more sender (LogEntry.network n₁.clock.now sent message (some dropped)) n₁
                (log sent message (some dropped) n₁) (refl, refl, refl) refl (λ t. refl)
                (Limited-of_Room sender message.body.from_node n₁ room₁))
          | inr going ↦ rw going (transmit-Limited message n₁ room₁)
        ]
