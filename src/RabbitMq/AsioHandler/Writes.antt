-- ===== src/RabbitMq/AsioHandler/Writes.antt =====
-- bingo/RabbitMQ/visitor/asiohandler.cpp: onData, doWrite and the handler of a write, one by one.
use bingo_v.Prelude.{
  ℕ, ◌≡◌, ◌≢◌, refl, Bool, true, false, Option, none, some, List, [], ◌∷◌, ◌++◌, append-nil,
  append_assoc, if◌then◌else◌, drop, arith,
}
use bingo_v.Bytes.{Bytes}
use bingo_v.RabbitMq.Buffer.{drain, available}
use bingo_v.RabbitMq.AsioHandler.{
  AsioHandler, Callback, sends, fails, connects, closes, front, on_data, do_write, on_error,
  on_closed, call_back, connect_handler, connect_timeout, write_waiting, write_handler, next_write,
  close_if_quit, used, take_in, read_error, heartbeat_handler,
}

-- The buffer that is being written.
abbrev pub pending : Bool → List Bytes → List Bytes
pending true out = front out
pending false out = []

-- What was given to onData, in order, has been sent or waits; one buffer at most is being written, and
-- it is the first that waits; a buffer waits without a write only until the connection is made.
pub record Fifo {C : Type 0} (h : AsioHandler C) : Type 0 where
  pub kept : h.given ≡ h.sent ++ h.output
  pub in_order : h.issued ≡ h.sent ++ pending h.write_in_progress h.output
  pub busy : h.write_in_progress ≡ true → h.output ≢ []
  pub early : h.connected ≡ false → h.write_in_progress ≡ false
  pub unconnected : h.connecting ≡ true → h.connected ≡ false
  pub active : h.stopped ≡ false → h.connected ≡ true → h.write_in_progress ≡ false → h.output ≡ []

append-cons : (xs : List Bytes) (b : Bytes) → xs ++ (b ∷ []) ≢ []
append-cons [] b e = cc
append-cons (x ∷ xs) b e = cc

front-append : (xs : List Bytes) (b : Bytes) → xs ≢ [] → front (xs ++ (b ∷ [])) ≡ front xs
front-append [] b h = absurd (h refl)
front-append (x ∷ xs) b h = refl

module _ {C : Type 0} where
  pub on_data-Fifo : (h : AsioHandler C) (bs : Bytes) → Fifo h → Fifo (on_data h bs)
  unfolding on_data do_write
  on_data-Fifo h bs v = ground (
    arith,
    append-cons h.output bs,
    front-append h.output bs,
    append_assoc h.sent h.output (bs ∷ []),
    append-nil h.sent,
  )

  on_closed-Fifo : (h : AsioHandler C) → Fifo h → Fifo (on_closed h)
  unfolding on_closed
  on_closed-Fifo h v = ground arith

  on_error-Fifo : (h : AsioHandler C) (m : Bytes) → Fifo h → Fifo (on_error h m)
  unfolding on_error
  on_error-Fifo h m v = ground arith

  pub call_back-Fifo : (h : AsioHandler C) (cs : List Callback) → Fifo h → Fifo (call_back h cs)
  unfolding call_back
  call_back-Fifo h [] v = v
  call_back-Fifo h (sends bs ∷ cs) v = call_back-Fifo (on_data h bs) cs (on_data-Fifo h bs v)
  call_back-Fifo h (fails m ∷ cs) v = call_back-Fifo (on_error h m) cs (on_error-Fifo h m v)
  call_back-Fifo h (connects ∷ cs) v = call_back-Fifo h cs v
  call_back-Fifo h (closes ∷ cs) v = call_back-Fifo (on_closed h) cs (on_closed-Fifo h v)

  pub connect_timeout-Fifo : (h : AsioHandler C) → Fifo h → Fifo (connect_timeout h)
  unfolding connect_timeout
  connect_timeout-Fifo h v = ground arith

  pub heartbeat_handler-Fifo :
      (h : AsioHandler C) (now : ℕ) → Fifo h → Fifo (heartbeat_handler h now)
  unfolding heartbeat_handler
  heartbeat_handler-Fifo h now v = ground arith

  -- Buffers that waited for the connection are written when it is made.
  write_waiting-Fifo :
      (h : AsioHandler C) (out : List Bytes)
      → h.output ≡ out
      → h.given ≡ h.sent ++ out
      → h.issued ≡ h.sent
      → h.connected ≡ true
      → h.connecting ≡ false
      → h.write_in_progress ≡ false
      → Fifo (write_waiting h out)
  unfolding write_waiting do_write
  write_waiting-Fifo h [] o k i c n w = ground (arith, append-nil h.sent)
  write_waiting-Fifo h (b ∷ bs) o k i c n w = ground (arith, append-nil h.sent)

  pub connect_handler-Fifo :
      (h : AsioHandler C) (r : Option ℕ) (now : ℕ)
      → Fifo h
      → h.connected ≡ false
      → h.connecting ≡ false
      → Fifo (connect_handler h r now)
  unfolding connect_handler
  connect_handler-Fifo h (some n) now v c d = ground arith
  connect_handler-Fifo h none now v c d =
      write_waiting-Fifo _ h.output (ground arith) (ground arith)
        (ground (arith, append-nil h.sent)) (ground arith) (ground arith) (ground arith)

  close_if_quit-Fifo : (h : AsioHandler C) → Fifo h → Fifo (close_if_quit h)
  unfolding close_if_quit
  close_if_quit-Fifo h v = ground arith

  next_write-Fifo :
      (h : AsioHandler C) (b : Bytes) (out : List Bytes)
      → h.output ≡ b ∷ out
      → h.write_in_progress ≡ true
      → Fifo h
      → Fifo (next_write (record h { output = out; sent = h.sent ++ (b ∷ []) }) out)
  unfolding next_write do_write
  next_write-Fifo h b [] o w v = ground (arith, append-nil (h.sent ++ (b ∷ [])))
  next_write-Fifo h b (c ∷ cs) o w v = ground (arith, append_assoc h.sent (b ∷ []) (c ∷ cs))

  written-Fifo :
      (h : AsioHandler C) (out : List Bytes)
      → h.output ≡ out
      → h.write_in_progress ≡ true
      → Fifo h
      → Fifo
          (next_write (record h { output = drop 1 out; sent = h.sent ++ front out }) (drop 1 out))
  written-Fifo h [] o w v = absurd (v.busy w o)
  written-Fifo h (b ∷ bs) o w v = next_write-Fifo h b bs o w v

  pub write_handler-Fifo :
      (h : AsioHandler C) (r : Option ℕ)
      → h.write_in_progress ≡ true
      → Fifo h
      → Fifo (write_handler h r)
  unfolding write_handler
  write_handler-Fifo h (some n) w v = ground arith
  write_handler-Fifo h none w v = close_if_quit-Fifo _ (written-Fifo h h.output refl w v)

  pub read_error-Fifo : (h : AsioHandler C) (n : ℕ) → Fifo h → Fifo (read_error h n)
  unfolding read_error
  read_error-Fifo h n v = ground arith

  pub take_in-Fifo : (h : AsioHandler C) (bs : Bytes) (now : ℕ) → Fifo h → Fifo (take_in h bs now)
  unfolding take_in
  take_in-Fifo h bs now v = ground arith

-- A property of a handler, if no assertion has failed.
abbrev pub IfAny : {C : Type 0} → (AsioHandler C → Type 0) → Option (AsioHandler C) → Type 0
IfAny P none = Unit
IfAny P (some h) = P h

pub IfAny-if :
    {C : Type 0} (P : AsioHandler C → Type 0) (b : Bool) (o : Option (AsioHandler C))
    (h : AsioHandler C)
    → IfAny P o
    → P h
    → IfAny P (if b then o else some h)
IfAny-if P true o h w v = w
IfAny-if P false o h w v = v

module _ {C : Type 0} where
  pub used-Fifo : (h : AsioHandler C) (count : ℕ) → Fifo h → IfAny Fifo (used h count)
  unfolding used drain available
  used-Fifo h count v = ground arith
