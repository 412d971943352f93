-- ===== src/Network/Limit.antt =====
-- The rate limit of src/network/simulator.py over a sequence of sends and the time between them.
pub mod Passing
pub mod Traffic
pub mod Window
use blockchain_application.Prelude.{
  ℕ, ◌+◌, ◌≤◌, ◌<◌, ◌≡◌, ◌∙◌, refl, ap, sym, inl, inr, String, Bool, true, false, Option, none,
  some, List, [], ◌∷◌, ◌++◌, ◌&&◌, ltb, leb, ◌==◌, string_eq, keep, length, arith, if◌then◌else◌,
  Bool-cases, ==_iff,
}
use blockchain_application.Prelude.Dict
use blockchain_application.Prelude.Dict.{get_or-insert}
use blockchain_application.Clock
use blockchain_application.Network.Types.{
  NetworkBody, LogMessage, LogEntry, Network, sent, recv, succeeded, duplicated, dropped, blocked,
  unblocked, rate_limited,
}
use blockchain_application.Network.{
  pair_eq, append_log, log, recent_times, check_window, rate_limit_blocks, random, uniform, drops,
  base_delay, reordered_delay, schedule_delivery, transmit, send_unlimited, send,
}
use blockchain_application.Network.Sent.{blocks_by}
use blockchain_application.Quorum.Counting.{count, count-le}

-- A message of the sender that went out at most `window` before the time `t`.
abbrev pub is_transmitted : String → ℕ → ℕ → LogEntry → Bool
is_transmitted sender window t (LogEntry.network ts sent message (some (succeeded delay))) =
    (message.body.from_node == sender) && leb t (ts + window)
is_transmitted sender window t (LogEntry.network ts sent message (some duplicated)) = false
is_transmitted sender window t (LogEntry.network ts sent message (some dropped)) = false
is_transmitted sender window t (LogEntry.network ts sent message (some blocked)) = false
is_transmitted sender window t (LogEntry.network ts sent message (some unblocked)) = false
is_transmitted sender window t (LogEntry.network ts sent message (some (rate_limited until))) =
    false
is_transmitted sender window t (LogEntry.network ts sent message none) = false
is_transmitted sender window t (LogEntry.network ts recv message state) = false
is_transmitted sender window t (LogEntry.consensus ts height round event node) = false

-- How many messages of a sender went out in the window before a time.
abbrev pub transmitted : String → ℕ → Network → ℕ
transmitted sender t n = count (is_transmitted sender n.config.rate_window t) n.log_buffer

-- How many of the times that the limiter keeps for a sender lie in that window.
abbrev pub remembered : String → ℕ → Network → ℕ
remembered sender t n =
    count (λ ts. leb t (ts + n.config.rate_window)) (Dict.get_or sender [] n.send_times)

-- The limiter remembers what has gone out, and that is within the limit in the window before any
-- time from now on.
abbrev pub Limited : String → Network → Type 0
Limited sender n =
    (t : ℕ)
    → n.clock.now ≤ t
    → (transmitted sender t n ≤ remembered sender t n)
      × (transmitted sender t n ≤ n.config.rate_limit)

-- The same with room for one more message of a node.
abbrev pub Room : String → String → Network → Type 0
Room from sender n =
    (t : ℕ)
    → n.clock.now ≤ t
    → let one = if (from == sender) && leb t (n.clock.now + n.config.rate_window) then 1 else 0 in
      (transmitted sender t n + one ≤ remembered sender t n)
      × (transmitted sender t n + one ≤ n.config.rate_limit)

pub count-append :
    {A : Type 0} (p : A → Bool) (xs ys : List A) → count p (xs ++ ys) ≡ count p xs + count p ys
count-append p [] ys = omega arith
count-append p (x ∷ xs) ys = omega (arith, count-append p xs ys)

-- What is in a later window is in the present one.
pub count-keep :
    (now t window : ℕ) (times : List ℕ)
    → now ≤ t
    → count (λ ts. leb t (ts + window)) (keep (λ ts. leb now (ts + window)) times)
      ≡ count (λ ts. leb t (ts + window)) times
count-keep now t window [] le = refl
count-keep now t window (ts ∷ times) le = ground (arith, count-keep now t window times le)

-- What the limit depends on is as it was.
abbrev pub Alike : Network → Network → Type 0
Alike n m = (m.config ≡ n.config) × (m.clock.now ≡ n.clock.now) × (m.send_times ≡ n.send_times)

module _ (sender : String) where
  pub Limited-more :
      (entry : LogEntry) (n m : Network)
      → Alike n m
      → m.log_buffer ≡ n.log_buffer ++ (entry ∷ [])
      → ((t : ℕ) → is_transmitted sender n.config.rate_window t entry ≡ false)
      → Limited sender n
      → Limited sender m
  Limited-more entry n m (config, now, times) logged other limited t le =
      let p = is_transmitted sender n.config.rate_window t in
      let (few, within) = limited t (rw now at le) in
      let total : transmitted sender t m ≡ transmitted sender t n =
        rw (config, logged) (count-append p n.log_buffer (entry ∷ []) ∙ ground (arith, other t)) in
      rw (total, config, times) (few, within)

  pub Limited-sent :
      (delay : ℕ) (message : LogMessage) (n m : Network)
      → Alike n m
      → m.log_buffer
        ≡ n.log_buffer ++ (LogEntry.network n.clock.now sent message (some (succeeded delay)) ∷ [])
      → Room message.body.from_node sender n
      → Limited sender m
  Limited-sent delay message n m (config, now, times) logged room t le =
      let entry = LogEntry.network n.clock.now sent message (some (succeeded delay)) in
      let p = is_transmitted sender n.config.rate_window t in
      let total : transmitted sender t m ≡ transmitted sender t n + count p (entry ∷ []) =
        rw (config, logged) (count-append p n.log_buffer (entry ∷ [])) in
      let (few, within) = room t (rw now at le) in
      (rw (total, config, times) (omega (arith, few)), rw (total, config) (omega (arith, within)))

  pub Limited-of_Room : (from : String) (n : Network) → Room from sender n → Limited sender n
  Limited-of_Room from n room t le = (omega (arith, (room t le).0), omega (arith, (room t le).1))
