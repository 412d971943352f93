-- ===== src/Network/Sent.antt =====
-- What `send` of src/network/simulator.py leaves in the log: an entry for every message, whatever
-- becomes of it, and all entries that were there before.
use blockchain_application.Prelude.{
  Bool-cases, inl, inr, ltb, length, ℕ, ◌∙◌, ◌≡◌, refl, Bool, true, Option, none, some, List, [],
  ◌∷◌, ◌++◌, String, arith, if◌then◌else◌,
}
use blockchain_application.Prelude.Dict
use blockchain_application.Network.Types.{
  LogEntry, LogMessage, NetworkBody, Network, Sending, sent, succeeded, blocked, unblocked,
}
use blockchain_application.Network.{
  pair_eq, recent_times, append_log, log, check_window, rate_limit_blocks, random, uniform, drops,
  base_delay, reordered_delay, schedule_delivery, transmit, send_unlimited, send,
}

abbrev pub message_of : ℕ → ℕ → NetworkBody → LogMessage
message_of height round body = record { height = height; round = round; body = body }

-- `_rate_limit_blocks` when the block of the pair is known.
abbrev pub blocks_by : LogMessage → Network → Option ℕ → Network × Bool
blocks_by message n o =
    let pair : String × String = (message.body.to_node, message.body.from_node) in
    elim o [
      | none ↦ check_window message n
      | some until ↦
          if ltb n.clock.now until
          then (log sent message (some blocked) n, true)
          else check_window message (
              log sent message (some unblocked)
                (record n { blocked_until = Dict.erase pair n.blocked_until }))
    ]

-- For a property of the log that every further entry keeps.
module _ (Q : Network → Type 0) (same : (n m : Network) → m.log_buffer ≡ n.log_buffer → Q n → Q m)
    (more : (entry : LogEntry) (n m : Network)
      → m.log_buffer ≡ n.log_buffer ++ (entry ∷ [])
      → Q n
      → Q m) where
  module _ (draw : ℕ → ℕ → ℕ) where
    base_delay-log_buffer : (n : Network) → (base_delay draw n).1.log_buffer ≡ n.log_buffer
    unfolding base_delay uniform random
    base_delay-log_buffer n = ground arith

    reordered_delay-log_buffer :
        (delay : ℕ) (n : Network) → (reordered_delay draw delay n).1.log_buffer ≡ n.log_buffer
    unfolding reordered_delay
    reordered_delay-log_buffer delay n = ground arith

    drops-log_buffer : (n : Network) → (drops draw n).1.log_buffer ≡ n.log_buffer
    unfolding drops random
    drops-log_buffer n = ground arith

    -- The part of `transmit` from its log entry on.
    transmit-either :
        (message : LogMessage) (n : Network)
        → ((delay : ℕ) (m : Network)
            → m.log_buffer
              ≡ n.log_buffer
                ++ (LogEntry.network m.clock.now sent message (some (succeeded delay)) ∷ [])
            → Q m)
        → Q (transmit draw message n)
    unfolding transmit log append_log random schedule_delivery
    transmit-either message n went =
        let (d₀, n₁) = base_delay draw n in
        let (delay, n₂) = reordered_delay draw d₀ n₁ in
        let n₃ = (random draw (log sent message (some (succeeded delay)) n₂)).1 in
        let old = reordered_delay-log_buffer d₀ n₁ ∙ base_delay-log_buffer n in
        let q : Q n₃ = went delay n₃ (rw old refl) in
        elim (Bool-cases (
          ltb (random draw (log sent message (some (succeeded delay)) n₂)).0
            n.config.duplicate_rate)) [
              | inl twice ↦ rw twice (more _ n₃ _ refl q)
              | inr once ↦ rw once (same n₃ _ refl q)
            ]

    transmit-keeps : (message : LogMessage) (n : Network) → Q n → Q (transmit draw message n)
    transmit-keeps message n q = transmit-either message n (λ delay m e. more _ n m e q)

    send_unlimited-keeps :
        (message : LogMessage) (n : Network) → Q n → Q (send_unlimited draw message n)
    unfolding send_unlimited log append_log
    send_unlimited-keeps message n q =
        let n₁ = (drops draw n).1 in
        let old : Q n₁ = same n n₁ (drops-log_buffer n) q in
        elim (Bool-cases (drops draw n).0) [
          | inl lost ↦ rw lost (more _ n₁ _ refl old)
          | inr going ↦ rw going (transmit-keeps message n₁ old)
        ]

    check_window-keeps : (message : LogMessage) (n : Network) → Q n → Q (check_window message n).0
    unfolding check_window log append_log
    check_window-keeps message n q =
        elim (Bool-cases
          (ltb n.config.rate_limit (length (recent_times message.body.from_node n)))) [
            | inl over ↦ rw over (more _ n _ refl q)
            | inr under ↦ rw under (same n _ refl q)
          ]

    rate_limit_blocks-keeps :
        (message : LogMessage) (n : Network) → Q n → Q (rate_limit_blocks message n).0
    unfolding rate_limit_blocks log append_log
    rate_limit_blocks-keeps message n q =
        elim (Dict.lookup {K = String × String} (message.body.to_node, message.body.from_node)
            n.blocked_until)
          as (λ o. Q (blocks_by message n o).0) [
            | none ↦ check_window-keeps message n q
            | some until ↦ elim (Bool-cases (ltb n.clock.now until)) [
              | inl still ↦ rw still (more _ n _ refl q)
              | inr over ↦ rw over (check_window-keeps message _ (more _ n _ refl q))
            ]
          ]

    -- A send takes nothing from the log.
    pub send-keeps :
        (height round : ℕ) (body : NetworkBody) (n : Network)
        → Q n
        → Q (send draw height round body n)
    unfolding send
    send-keeps height round body n q =
        let message : LogMessage = record { height = height; round = round; body = body } in
        let old = rate_limit_blocks-keeps message n q in
        elim (Bool-cases (ltb 0 n.config.rate_limit)) [
          | inl limited ↦ rw limited (elim (Bool-cases (rate_limit_blocks message n).1) [
            | inl held ↦ rw held old
            | inr free ↦ rw free (send_unlimited-keeps message _ old)
          ])
          | inr unlimited ↦ rw unlimited (send_unlimited-keeps message n q)
        ]

    module _ (message : LogMessage)
        (hit : (l : List LogEntry) (ts : ℕ) (state : Sending) (m : Network)
          → m.log_buffer ≡ l ++ (LogEntry.network ts sent message (some state) ∷ [])
          → Q m) where
      -- A message that the limiter holds back has been logged.
      abbrev Held : Network × Bool → Type 0
      Held r = r.1 ≡ true → Q r.0

      check_window-Held : (n : Network) → Held (check_window message n)
      unfolding check_window log append_log
      check_window-Held n =
          elim (Bool-cases
            (ltb n.config.rate_limit (length (recent_times message.body.from_node n)))) [
              | inl over ↦ rw over (λ _. hit n.log_buffer _ _ _ refl)
              | inr under ↦ rw under (λ e. absurd (ground arith))
            ]

      rate_limit_blocks-Held : (n : Network) → Held (rate_limit_blocks message n)
      unfolding rate_limit_blocks log append_log
      rate_limit_blocks-Held n =
          elim (Dict.lookup {K = String × String} (message.body.to_node, message.body.from_node)
              n.blocked_until)
            as (λ o. Held (blocks_by message n o)) [
              | none ↦ check_window-Held n
              | some until ↦ elim (Bool-cases (ltb n.clock.now until)) [
                | inl still ↦ rw still (λ _. hit n.log_buffer _ _ _ refl)
                | inr over ↦ rw over (check_window-Held _)
              ]
            ]

      send_unlimited-logs : (n : Network) → Q (send_unlimited draw message n)
      unfolding send_unlimited log append_log
      send_unlimited-logs n =
          let n₁ = (drops draw n).1 in
          elim (Bool-cases (drops draw n).0) [
            | inl lost ↦ rw lost (hit n₁.log_buffer _ _ _ refl)
            | inr going ↦
                rw going (transmit-either message n₁ (λ delay m e. hit n₁.log_buffer _ _ m e))
          ]

    -- A send logs its message.
    pub send-logs :
        (height round : ℕ) (body : NetworkBody)
        → let message : LogMessage = record { height = height; round = round; body = body } in
          ((l : List LogEntry) (ts : ℕ) (state : Sending) (m : Network)
            → m.log_buffer ≡ l ++ (LogEntry.network ts sent message (some state) ∷ [])
            → Q m)
          → (n : Network) → Q (send draw height round body n)
    unfolding send
    send-logs height round body hit n =
        let message : LogMessage = record { height = height; round = round; body = body } in
        elim (Bool-cases (ltb 0 n.config.rate_limit)) [
          | inl limited ↦ rw limited (elim (Bool-cases (rate_limit_blocks message n).1) [
            | inl held ↦ rw held (rate_limit_blocks-Held message hit n held)
            | inr free ↦ rw free (send_unlimited-logs message hit _)
          ])
          | inr unlimited ↦ rw unlimited (send_unlimited-logs message hit n)
        ]
