-- ===== src/Tcp/Client/Backoff.antt =====
-- bingo/TCP/tcp_client.h: the delay after a number of failed attempts.
use Prim.Native.Nat.{min}
use bingo_v.Prelude.{
  ℕ, zero, suc, ◌+◌, ◌*◌, ◌^◌, ◌≤◌, ◌<◌, ◌≡◌, ap, inl, inr, ◌⊎◌, ◌∙◌, arith, refl, Option, some,
  List, [], ◌∷◌, ltb, if◌then◌else◌,
}
use native.Mathlib.Nat.{pow-suc, mul_assoc}
use bingo_v.Tcp.Client.{
  Parser, TcpClient, Output, connect_failed, reconnect_timer, tcp_client, connect_error, failures,
  reconnect,
}

pow_pos : (n : ℕ) → 1 ≤ 2 ^ n
pow_pos zero = omega arith
pow_pos (suc n) = omega (arith, pow_pos n, pow-suc 2 n)

leb_cases : (m x : ℕ) → m ≤ x ⊎ x ≤ m
leb_cases zero x = inl (omega arith)
leb_cases (suc m) zero = inr (omega arith)
leb_cases (suc m) (suc x) = elim (leb_cases m x) [
  | inl below ↦ inl (omega (arith, below))
  | inr above ↦ inr (omega (arith, above))
]

mul_pos_le : (x p : ℕ) → 1 ≤ p → x ≤ x * p
mul_pos_le zero p h = omega arith
mul_pos_le (suc x) p h = omega (arith, mul_pos_le x p h)

min-le : (m x : ℕ) → m ≤ x → min m x ≡ m
min-le m x h = omega (arith, h)

min-ge : (m x : ℕ) → x ≤ m → min m x ≡ x
min-ge m x h = omega (arith, h)

min_product : (m x p : ℕ) → 1 ≤ p → min m (min m x * p) ≡ min m (x * p)
min_product m x p h = elim (leb_cases m x) [
  | inl capped ↦
      ap (λ y. min m (y * p)) (min-le m x capped)
      ∙ omega (arith, capped, mul_pos_le m p h, mul_pos_le x p h)
  | inr below ↦ ap (λ y. min m (y * p)) (min-ge m x below)
]

double_of : (p q : ℕ) → q ≡ p + p → 2 * p ≡ q
double_of p q e = omega (arith, e)

min_doubled : (m d p q : ℕ) → 1 ≤ p → q ≡ p + p → min m (min m (d * 2) * p) ≡ min m (d * q)
min_doubled m d p q h e =
    min_product m (d * 2) p h ∙ ap (min m) (mul_assoc d 2 p ∙ ap (λ y. d * y) (double_of p q e))

-- Nothing overflows, and the delay is d.
abbrev pub HasDelay : ℕ → Option TcpClient → Type 0
HasDelay d o = (c : TcpClient) × (o ≡ some c) × (c.retry_delay ≡ d)

failures-suc :
    (ps : Parser) (fail_func : ℕ → ℕ) (n : ℕ) (c c' : TcpClient) (outputs : List Output)
    → connect_error ps fail_func c ≡ some (c', outputs)
    → failures ps fail_func (suc n) c ≡ failures ps fail_func n c'
unfolding failures
failures-suc ps fail_func n c c' outputs e = ground (arith, e)

module _ (ps : Parser) (fail_func : ℕ → ℕ) (pos : 0 < ps.retry_delay_seconds)
    (bound : ps.max_retry_delay_seconds < 2 ^ 30) (keeps : (d : ℕ) → fail_func d ≡ d) where
  connect_error-delay :
      (c : TcpClient)
      → c.retry_delay ≤ ps.max_retry_delay_seconds
      → (c' : TcpClient) × (outputs : List Output) × (connect_error ps fail_func c
          ≡ some (c', outputs))
        × (c'.retry_delay ≡ min ps.max_retry_delay_seconds (c.retry_delay * 2))
  unfolding connect_error
  connect_error-delay c h =
      let doubled = c.retry_delay * 2 in
      let delay =
        if ltb ps.max_retry_delay_seconds doubled then ps.max_retry_delay_seconds else doubled in
      (
        record c { retry_delay = fail_func delay },
        connect_failed delay ∷ reconnect_timer (fail_func delay) ∷ [],
        ground arith,
        keeps delay ∙ ground arith,
      )

  failures-delay :
      (n : ℕ) (c : TcpClient)
      → c.retry_delay ≤ ps.max_retry_delay_seconds
      → HasDelay
          (min ps.max_retry_delay_seconds (c.retry_delay * 2 ^ n))
          (failures ps fail_func n c)
  unfolding failures
  failures-delay zero c h = (c, refl, omega arith)
  failures-delay (suc n) c h =
      let (c', outputs, failed, delay) = connect_error-delay c h in
      let (d, ends, is) = failures-delay n c' (omega (arith, delay)) in
      (
        d,
        failures-suc ps fail_func n c c' outputs failed ∙ ends,
        is
            ∙ ap (λ x. min ps.max_retry_delay_seconds (x * 2 ^ n)) delay
            ∙ min_doubled ps.max_retry_delay_seconds c.retry_delay (2 ^ n) (2 ^ suc n) (pow_pos n)
                (omega (arith, pow-suc 2 n)),
      )

  -- With a positive initial delay of at most the bound, a bound below 2 ^ 30 seconds, and a
  -- connet_fail_func that leaves the delay alone, as that of the class does, the delay after n failed
  -- attempts in a row does not overflow and is the initial delay times 2 ^ n, capped at the bound; the
  -- count starts at the construction of the client, and again at every reconnect, whatever the delay
  -- was before.
  pub reconnect-failures :
      (n : ℕ) (c : TcpClient)
      → ps.retry_delay_seconds ≤ ps.max_retry_delay_seconds
      → HasDelay
          (min ps.max_retry_delay_seconds (ps.retry_delay_seconds * 2 ^ n))
          (failures ps fail_func n (tcp_client ps).0)
        × HasDelay
            (min ps.max_retry_delay_seconds (ps.retry_delay_seconds * 2 ^ n))
            (failures ps fail_func n (reconnect ps c).0)
  unfolding tcp_client reconnect
  reconnect-failures n c h =
      (failures-delay n (tcp_client ps).0 h, failures-delay n (reconnect ps c).0 h)
