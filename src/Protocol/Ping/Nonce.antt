-- ===== src/Protocol/Ping/Nonce.antt =====
-- Which pongs are accepted.
use wust_socket.Prelude.{
  ℕ, ◌-◌, ◌^◌, ◌<◌, ◌≡◌, ◌↔◌, List, ok, arith, list_eq, list_eq_iff, replicate,
}
use wust_socket.Protocol.Ping.{PingStats, new, on_pong, nonce_len}

-- A pong is accepted with a latency exactly if it carries the last nonce and the latency is the
-- time since the last ping and fits 16 bits.
pub on_pong-ok_iff :
    (s : PingStats) (now latency : ℕ) (bytes : List ℕ)
    → ((on_pong s now bytes).0 ≡ ok latency)
      ↔ ((bytes ≡ s.last_nonce) × (latency ≡ now - s.last_ping) × (latency < 2 ^ 16))
unfolding on_pong
on_pong-ok_iff s now latency bytes = ground (arith, list_eq_iff bytes s.last_nonce)

-- The nonce stays good after it was used: the same pong is accepted again, and counted again, as
-- long as its time still fits 16 bits.
pub on_pong_replay :
    (s : PingStats) (now later latency : ℕ) (bytes : List ℕ)
    → (on_pong s now bytes).0 ≡ ok latency
    → later - s.last_ping < 2 ^ 16
    → (on_pong (on_pong s now bytes).1 later bytes).0 ≡ ok (later - s.last_ping)
unfolding on_pong
on_pong_replay s now later latency bytes e h = ground arith

-- Before the first ping a pong of eight zeros is accepted, though no ping was sent.
pub on_pong_unsolicited :
    (started now : ℕ)
    → now - started < 2 ^ 16
    → (on_pong (new started) now (replicate nonce_len 0)).0 ≡ ok (now - started)
unfolding on_pong new list_eq
on_pong_unsolicited started now h = ground arith
