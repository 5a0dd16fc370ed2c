-- ===== src/Tcp/Client/Heartjump.antt =====
-- bingo/TCP/tcp_client.h: what check_heartjump_timeout_handler does with the answer of the handler.
use bingo_v.Prelude.{
  ℕ, ◌+◌, ◌≤◌, ◌<◌, ◌≡◌, refl, ◌⊎◌, inl, inr, true, some, ◌∷◌, ltb, arith, Bool-cases,
}
use bingo_v.ErrorWhat.{error_with}
use bingo_v.Tcp.Client.{
  Parser, TcpClient, schedule_timer1, close_asked, check_heartjump_timeout,
  check_heartjump_timeout_handler,
}

-- With an authenticated client, a handler that is silent for longer than the limit is not asked to
-- close, and one that is not is asked to, with error 0x0D.
closes_in_time :
    (ps : Parser) (c : TcpClient) (limit p1 now : ℕ)
    → c.is_authenticate_pass ≡ true
    → ((p1 + limit < now)
        × (check_heartjump_timeout_handler ps c (some (check_heartjump_timeout limit p1 now)) true
            ≡ some (schedule_timer1 ps)))
      ⊎ ((now ≤ p1 + limit)
          × (check_heartjump_timeout_handler ps c (some (check_heartjump_timeout limit p1 now)) true
              ≡ some (
                  close_asked (error_with 0x0D "client close socket because heartjump")
                  ∷ schedule_timer1 ps)))
unfolding check_heartjump_timeout check_heartjump_timeout_handler
closes_in_time ps c limit p1 now pass = elim (Bool-cases (ltb (p1 + limit) now)) [
  | inl late ↦ inl (ground (arith, late), rw (pass, late) refl)
  | inr early ↦ inr (ground (arith, early), rw (pass, early) refl)
]
