-- ===== src/Network/Limit/Window.antt =====
-- `_rate_limit_blocks` of src/network/simulator.py: what it remembers, and what it lets pass.
use blockchain_application.Prelude.{
  ℕ, ◌+◌, ◌≤◌, ◌≡◌, refl, inl, inr, String, Bool, true, false, none, some, [], ◌∷◌, ◌&&◌, ltb, leb,
  ◌==◌, string_eq, keep, length, arith, if◌then◌else◌, Bool-cases,
}
use blockchain_application.Prelude.Dict
use blockchain_application.Prelude.Dict.{get_or-insert}
use blockchain_application.Network.Types.{
  LogMessage, LogEntry, Network, sent, blocked, unblocked, rate_limited,
}
use blockchain_application.Network.{
  pair_eq, append_log, log, recent_times, check_window, rate_limit_blocks,
}
use blockchain_application.Network.Sent.{blocks_by}
use blockchain_application.Quorum.Counting.{count, count-le}
use blockchain_application.Network.Limit.{
  Limited, Room, transmitted, remembered, count-append, count-keep, Limited-more,
}

module _ (sender : String) where
  -- What the limiter has remembered once it looked at a message.
  abbrev looked : LogMessage → Network → Network
  looked message n =
      let from = message.body.from_node in
      record n { send_times = Dict.insert from (recent_times from n) n.send_times }

  abbrev one_more : LogMessage → ℕ → Network → ℕ
  one_more message t n =
      if (message.body.from_node == sender) && leb t (n.clock.now + n.config.rate_window)
      then 1
      else 0

  recount :
      (from : String) (n : Network) (t : ℕ)
      → n.clock.now ≤ t
      → let p = λ (ts : ℕ). leb t (ts + n.config.rate_window) in
        count p (recent_times from n)
        ≡ count p (Dict.get_or from [] n.send_times) + (if p n.clock.now then 1 else 0)
  unfolding recent_times
  recount from n t le =
      let w = n.config.rate_window in
      let old = Dict.get_or from [] n.send_times in
      omega (
        arith,
        count-append (λ ts. leb t (ts + w)) (keep (λ ts. leb n.clock.now (ts + w)) old)
            (n.clock.now ∷ []),
        count-keep n.clock.now t w old le,
      )

  -- A message of the sender itself is remembered; those of others change nothing.
  remembered-looked :
      (message : LogMessage) (n : Network) (t : ℕ)
      → n.clock.now ≤ t
      → remembered sender t (looked message n) ≡ remembered sender t n + one_more message t n
  remembered-looked message n t le =
      let from = message.body.from_node in
      let look = get_or-insert sender from [] (recent_times from n) n.send_times in
      elim (Bool-cases (sender == from)) [
        | inl same ↦
            let is : sender ≡ from = ground arith in
            let back : (from == sender) ≡ true = ground arith in
            rw (look, same, back, is) (recount from n t le)
        | inr other ↦
            let back : (from == sender) ≡ false = ground arith in
            rw (look, other, back) (omega arith)
      ]

  looked-Limited :
      (message : LogMessage) (n : Network) → Limited sender n → Limited sender (looked message n)
  looked-Limited message n limited t le =
      let (few, within) = limited t le in
      (omega (arith, few, remembered-looked message n t le), within)

  looked-Room :
      (message : LogMessage) (n : Network)
      → length (recent_times message.body.from_node n) ≤ n.config.rate_limit
      → Limited sender n
      → Room message.body.from_node sender (looked message n)
  looked-Room message n small limited t le =
      let from = message.body.from_node in
      let p = λ (ts : ℕ). leb t (ts + n.config.rate_window) in
      let (few, within) = limited t le in
      let grown = remembered-looked message n t le in
      let fits : transmitted sender t n + one_more message t n ≤ n.config.rate_limit =
        elim (Bool-cases (from == sender)) [
          | inl same ↦
              let is : sender ≡ from = ground arith in
              let few' : transmitted sender t n ≤ count p (Dict.get_or from [] n.send_times) =
                rw (← is) few in
              rw same
                (omega (arith, few', small, recount from n t le, count-le p (recent_times from n)))
          | inr other ↦ rw other (omega (arith, within))
        ] in
      (omega (arith, few, grown), fits)

  -- The limiter keeps the property, and what it lets pass has room.
  abbrev Checked : String → Network × Bool → Type 0
  Checked from r = Limited sender r.0 × (r.1 ≡ false → Room from sender r.0)

  check_window-Checked :
      (message : LogMessage) (n : Network)
      → Limited sender n
      → Checked message.body.from_node (check_window message n)
  unfolding check_window log append_log
  check_window-Checked message n limited =
      let from = message.body.from_node in
      elim (Bool-cases (ltb n.config.rate_limit (length (recent_times from n)))) [
        | inl over ↦
            let until = n.clock.now + n.config.block_duration in
            let n' = looked message n in
            rw over (
              Limited-more sender
                  (LogEntry.network n.clock.now sent message (some (rate_limited until))) n'
                  (log sent message (some (rate_limited until)) (record n' {
                    blocked_until = Dict.insert (message.body.to_node, from) until n.blocked_until;
                  }))
                  (refl, refl, refl) refl (λ t. refl) (looked-Limited message n limited),
              (λ e. absurd (ground arith)),
            )
        | inr under ↦
            rw under (
              looked-Limited message n limited,
              (λ _. looked-Room message n (ground arith) limited),
            )
      ]

  pub rate_limit_blocks-Checked :
      (message : LogMessage) (n : Network)
      → Limited sender n
      → Checked message.body.from_node (rate_limit_blocks message n)
  unfolding rate_limit_blocks log append_log
  rate_limit_blocks-Checked message n limited =
      let from = message.body.from_node in
      let pair : String × String = (message.body.to_node, from) in
      elim (Dict.lookup pair n.blocked_until) as (λ o. Checked from (blocks_by message n o)) [
        | none ↦ check_window-Checked message n limited
        | some until ↦ elim (Bool-cases (ltb n.clock.now until)) [
          | inl still ↦ rw still (
            Limited-more sender (LogEntry.network n.clock.now sent message (some blocked)) n
                (log sent message (some blocked) n) (refl, refl, refl) refl (λ t. refl) limited,
            (λ e. absurd (ground arith)),
          )
          | inr over ↦
              let m = record n { blocked_until = Dict.erase pair n.blocked_until } in
              rw over (
                check_window-Checked message (log sent message (some unblocked) m) (
                  Limited-more sender (LogEntry.network n.clock.now sent message (some unblocked)) n
                    (log sent message (some unblocked) m) (refl, refl, refl) refl (λ t. refl)
                    limited))
        ]
      ]
