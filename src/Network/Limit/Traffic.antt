-- ===== src/Network/Limit/Traffic.antt =====
-- `send` of src/network/simulator.py, many times, with time passing in between.
use blockchain_application.Prelude.{
  Bool-cases, inl, inr, ltb, true, ℕ, ◌+◌, ◌<◌, ◌≡◌, String, List, [], ◌∷◌, arith,
}
use blockchain_application.Network.Types.{NetworkBody, LogMessage, Network}
use blockchain_application.Network.{
  append_log, log, check_window, rate_limit_blocks, random, uniform, drops, base_delay,
  reordered_delay, schedule_delivery, transmit, send_unlimited, send,
}
use blockchain_application.Network.Limit.{Limited}
use blockchain_application.Network.Limit.Passing.{send_unlimited-Limited}
use blockchain_application.Network.Limit.Window.{rate_limit_blocks-Checked}

send-Limited :
    (sender : String) (draw : ℕ → ℕ → ℕ) (height round : ℕ) (body : NetworkBody) (n : Network)
    → 0 < n.config.rate_limit
    → Limited sender n
    → Limited sender (send draw height round body n)
unfolding send
send-Limited sender draw height round body n on limited =
    let message : LogMessage = record { height = height; round = round; body = body } in
    let on' : ltb 0 n.config.rate_limit ≡ true = ground arith in
    let (kept, room) = rate_limit_blocks-Checked sender message n limited in
    rw on' (elim (Bool-cases (rate_limit_blocks message n).1) [
      | inl held ↦ rw held kept
      | inr free ↦ rw free (send_unlimited-Limited sender draw message _ (room free))
    ])

-- Time that passes on the clock, or a message of any node to any other.
pub data Traffic : Type 0 where
  wait : ℕ → Traffic
  post : (height round : ℕ) → NetworkBody → Traffic

module _ (draw : ℕ → ℕ → ℕ) where
  unfoldable pub run_traffic : List Traffic → Network → Network
  run_traffic [] n = n
  run_traffic (wait duration ∷ traffic) n =
      run_traffic traffic (record n { clock = record (n.clock) { now = n.clock.now + duration } })
  run_traffic (post height round body ∷ traffic) n =
      run_traffic traffic (send draw height round body n)

  drops-config : (n : Network) → (drops draw n).1.config ≡ n.config
  unfolding drops random
  drops-config n = ground arith

  transmit-config :
      (message : LogMessage) (n : Network) → (transmit draw message n).config ≡ n.config
  unfolding transmit base_delay reordered_delay uniform random log append_log schedule_delivery
  transmit-config message n = ground arith

  send_unlimited-config :
      (message : LogMessage) (n : Network) → (send_unlimited draw message n).config ≡ n.config
  unfolding send_unlimited log append_log
  send_unlimited-config message n =
      ground (arith, drops-config n, transmit-config message (drops draw n).1)

  rate_limit_blocks-config :
      (message : LogMessage) (n : Network) → (rate_limit_blocks message n).0.config ≡ n.config
  unfolding rate_limit_blocks check_window log append_log
  rate_limit_blocks-config message n = ground arith

  send-config :
      (height round : ℕ) (body : NetworkBody) (n : Network)
      → (send draw height round body n).config ≡ n.config
  unfolding send
  send-config height round body n =
      let message : LogMessage = record { height = height; round = round; body = body } in
      let n' = (rate_limit_blocks message n).0 in
      ground (
        arith,
        rate_limit_blocks-config message n,
        send_unlimited-config message n,
        send_unlimited-config message n',
      )

  -- Take a network with a rate limit, and a sender of whose messages at most `rate_limit` were
  -- transmitted in the window before any time from the present on, all of them remembered by the
  -- limiter, as when there are none. After any sends of any nodes, with any time passing in between,
  -- the same holds. Copies of a message do not count.
  pub run_traffic-Limited :
      (sender : String) (traffic : List Traffic) (n : Network)
      → 0 < n.config.rate_limit
      → Limited sender n
      → Limited sender (run_traffic traffic n)
  unfolding run_traffic
  run_traffic-Limited sender [] n on limited = limited
  run_traffic-Limited sender (wait duration ∷ traffic) n on limited =
      run_traffic-Limited sender traffic _ on (λ t le. limited t (omega (arith, le)))
  run_traffic-Limited sender (post height round body ∷ traffic) n on limited =
      run_traffic-Limited sender traffic _ (rw (send-config height round body n) on)
        (send-Limited sender draw height round body n on limited)
