-- ===== src/Tcp/Manager/Timeouts.antt =====
-- bingo/TCP/tcp_svr_hdr_manager.h: which handlers the periodic checks close.
use bingo_v.Prelude.{
  ℕ, suc, ◌+◌, ◌*◌, ◌<◌, ◌≡◌, ◌⊎◌, Bool, true, false, not, List, [], ◌∷◌, ◌==◌, if◌then◌else◌,
  arith, inl, inr, All, All-append,
}
use bingo_v.Tcp.Types.{post, active_close}
use bingo_v.Tcp.ServerHandler.{
  Server, send_close_in_thread, check_heartjump_timeout, check_authentication_pass, microseconds,
}
use bingo_v.Tcp.Manager.{
  Calls, check_heartjump_in_thread, heartjump_timeout, check_authentication_pass_in_thread,
  by_heartbeat, by_authentication, unless_null,
}
use bingo_v.Tcp.Manager.Members.{count}

-- How many calls are made of the handler at a pointer.
abbrev pub calls_of : ℕ → Calls → ℕ
calls_of p [] = 0
calls_of p ((q, actions) ∷ calls) = if q == p then suc (calls_of p calls) else calls_of p calls

module _ (seconds : ℕ) (store : ℕ → Server) (now : ℕ → ℕ) where
  heartjump-calls_of :
      (p : ℕ) (sets : List ℕ)
      → calls_of p (check_heartjump_in_thread seconds store now sets)
        ≡ (if heartjump_timeout seconds store now p then count p sets else 0)
  unfolding check_heartjump_in_thread heartjump_timeout
  heartjump-calls_of p [] = ground arith
  heartjump-calls_of p (q ∷ sets) = grind (arith, heartjump-calls_of p sets)

  heartjump-closes :
      (sets : List ℕ)
      → All
          (λ call. call.1 ≡ post (active_close by_heartbeat) ∷ [])
          (check_heartjump_in_thread seconds store now sets)
  unfolding check_heartjump_in_thread heartjump_timeout send_close_in_thread
  heartjump-closes [] = tt
  heartjump-closes (q ∷ sets) =
      All-append _
        (if heartjump_timeout seconds store now q
          then unless_null q ((q, send_close_in_thread by_heartbeat) ∷ [])
          else [])
        (check_heartjump_in_thread seconds store now sets) (ground arith) (heartjump-closes sets)

  authentication-closes :
      (sets : List ℕ)
      → All
          (λ call. call.1 ≡ post (active_close by_authentication) ∷ [])
          (check_authentication_pass_in_thread seconds store now sets)
  unfolding check_authentication_pass_in_thread check_authentication_pass send_close_in_thread
  authentication-closes [] = tt
  authentication-closes (q ∷ sets) =
      All-append _
        (unless_null q (
          if not (check_authentication_pass seconds (store q) (now q))
          then (q, send_close_in_thread by_authentication) ∷ []
          else []))
        (check_authentication_pass_in_thread seconds store now sets) (ground arith)
        (authentication-closes sets)

  -- What makes a handler late with its heartbeat, and with its authentication.
  abbrev pub IsSilent : ℕ → Type 0
  IsSilent p =
      (0 < p)
      × ((store p).is_authentication_pass ≡ true)
      × ((store p).p1 + seconds * microseconds < now p)

  abbrev pub IsStranger : ℕ → Type 0
  IsStranger p =
      (0 < p)
      × ((store p).is_authentication_pass ≡ false)
      × ((store p).p2 + seconds * microseconds < now p)

  IsSilent-dec :
      (p : ℕ)
      → (IsSilent p × (heartjump_timeout seconds store now p ≡ true))
        ⊎ ((¬ IsSilent p) × (heartjump_timeout seconds store now p ≡ false))
  unfolding heartjump_timeout check_heartjump_timeout
  IsSilent-dec p = ground arith

  stranger : ℕ → Bool
  stranger p = if p == 0 then false else not (check_authentication_pass seconds (store p) (now p))

  authentication-calls_of :
      (p : ℕ) (sets : List ℕ)
      → calls_of p (check_authentication_pass_in_thread seconds store now sets)
        ≡ (if stranger p then count p sets else 0)
  unfolding check_authentication_pass_in_thread stranger
  authentication-calls_of p [] = ground arith
  authentication-calls_of p (q ∷ sets) = grind (arith, authentication-calls_of p sets)

  IsStranger-dec :
      (p : ℕ) → (IsStranger p × (stranger p ≡ true)) ⊎ ((¬ IsStranger p) × (stranger p ≡ false))
  unfolding stranger check_authentication_pass
  IsStranger-dec p = ground arith

  -- The heartbeat check asks each entry of a handler that is authenticated and was not heard for more than the
  -- allowed seconds to close, with the error 0x07, as often as the handler stands in the container;
  -- no other handler is called.
  pub check_heartjump_lem :
      (p : ℕ) (sets : List ℕ)
      → All
          (λ call. call.1 ≡ post (active_close by_heartbeat) ∷ [])
          (check_heartjump_in_thread seconds store now sets)
        × ((IsSilent p
              × (calls_of p (check_heartjump_in_thread seconds store now sets) ≡ count p sets))
            ⊎ ((¬ IsSilent p)
                × (calls_of p (check_heartjump_in_thread seconds store now sets) ≡ 0)))
  check_heartjump_lem p sets = (
    heartjump-closes sets,
    elim (IsSilent-dec p) [
      | inl (late, hit) ↦ inl (late, grind (arith, heartjump-calls_of p sets, hit))
      | inr (fine, miss) ↦ inr (fine, grind (arith, heartjump-calls_of p sets, miss))
    ],
  )

  -- The authentication check asks each entry of a handler that did not authenticate within the allowed
  -- seconds of its start to close, with the error 0x08, as often as the handler stands in the container;
  -- no other handler is called.
  pub check_authentication_pass_lem :
      (p : ℕ) (sets : List ℕ)
      → All
          (λ call. call.1 ≡ post (active_close by_authentication) ∷ [])
          (check_authentication_pass_in_thread seconds store now sets)
        × ((IsStranger p
              × (calls_of p (check_authentication_pass_in_thread seconds store now sets)
                  ≡ count p sets))
            ⊎ ((¬ IsStranger p)
                × (calls_of p (check_authentication_pass_in_thread seconds store now sets) ≡ 0)))
  check_authentication_pass_lem p sets = (
    authentication-closes sets,
    elim (IsStranger-dec p) [
      | inl (late, hit) ↦ inl (late, grind (arith, authentication-calls_of p sets, hit))
      | inr (fine, miss) ↦ inr (fine, grind (arith, authentication-calls_of p sets, miss))
    ],
  )
