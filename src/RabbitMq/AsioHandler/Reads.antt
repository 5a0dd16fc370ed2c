-- ===== src/RabbitMq/AsioHandler/Reads.antt =====
-- bingo/RabbitMQ/visitor/asiohandler.cpp: doRead and parseData.
use bingo_v.Prelude.{
  ℕ, zero, suc, ◌*◌, ◌≤◌, ◌≡◌, refl, ◌∙◌, ap, Bool, true, false, Option, none, some, List, [], ◌∷◌,
  ◌++◌, append-nil, append_assoc, if◌then◌else◌, length, take, drop, arith, Bool-cases, inl, inr,
  ◌==◌, ltb,
}
use bingo_v.Bytes.{Bytes}
use bingo_v.RabbitMq.Buffer.{AmqpBuffer, drain, available}
use bingo_v.RabbitMq.Buffer.Queue.{
  contents, IsValid, push, take_all, length-contents, write-Written, shl-drops,
}
use bingo_v.RabbitMq.AsioHandler.{
  AsioHandler, Callback, sends, fails, connects, closes, on_data, on_error, on_closed, call_back,
  used, parse_data, take_in, read_handler, do_read, asio_input_buffer_size,
}

abbrev pub buffer_size : ℕ
buffer_size = asio_input_buffer_size * 2

take-drop_append : (n : ℕ) (s : Bytes) → take n s ++ drop n s ≡ s
take-drop_append zero s = refl
take-drop_append (suc n) [] = refl
take-drop_append (suc n) (b ∷ bs) = ap (◌∷◌ b) (take-drop_append n bs)

module _ {C : Type 0} where
  -- The handler's input, and what was parsed of it.
  abbrev Stream : AsioHandler C → Bytes
  Stream h = h.parsed ++ contents h.input

  -- The methods that a connection calls leave the input alone.
  call_back-input :
      (h : AsioHandler C) (cs : List Callback)
      → ((call_back h cs).input ≡ h.input) × ((call_back h cs).parsed ≡ h.parsed)
  unfolding call_back on_data on_error on_closed
  call_back-input h [] = (refl, refl)
  call_back-input h (sends bs ∷ cs) = ground (arith, call_back-input (on_data h bs) cs)
  call_back-input h (fails m ∷ cs) = ground (arith, call_back-input (on_error h m) cs)
  call_back-input h (connects ∷ cs) = call_back-input h cs
  call_back-input h (closes ∷ cs) = ground (arith, call_back-input (on_closed h) cs)

  -- What a step that gives a handler leaves of a stream of bytes.
  abbrev pub Keeps : Bytes → Option (AsioHandler C) → Type 0
  Keeps s o =
      (h' : AsioHandler C) × (o ≡ some h')
      × IsValid buffer_size h'.input
      × (h'.parsed ++ contents h'.input ≡ s)

  Keeps-if :
      (s : Bytes) (b : Bool) (o : Option (AsioHandler C)) (h : AsioHandler C)
      → Keeps s o
      → Keeps s (some h)
      → Keeps s (if b then o else some h)
  Keeps-if s true o h k k' = k
  Keeps-if s false o h k k' = k'

  read_again : Option (AsioHandler C) → Option (AsioHandler C)
  unfolding do_read
  read_again none = none
  read_again (some h) = some (do_read h)

  used-Keeps :
      (h : AsioHandler C) (count : ℕ)
      → IsValid buffer_size h.input
      → count ≤ h.input.used
      → Keeps (Stream h) (used h count)
  unfolding used available drain
  used-Keeps h count v le = elim (Bool-cases (count == h.input.used)) [
    | inl all ↦ (
      record h { parsed = h.parsed ++ take count (contents h.input); input = drain h.input },
      rw all,
      record { whole = v.whole; within = omega arith },
      append-nil (h.parsed ++ take count (contents h.input))
          ∙ ap (◌++◌ h.parsed) (
              take_all count (contents h.input)
                (ground (arith, length-contents buffer_size h.input v))),
    )
    | inr part ↦ elim (Bool-cases (ltb 0 count)) [
      | inl more ↦
          let s = shl-drops buffer_size h.input count v (ground arith) in
          (
            record h { parsed = h.parsed ++ take count (contents h.input); input = s.0 },
            rw (part, more, s.1),
            s.2,
            rw (
              s.3,
              append_assoc h.parsed (take count (contents h.input)) (drop count (contents h.input)),
              take-drop_append count (contents h.input),
            ),
          )
      | inr zero_count ↦ (h, rw (part, zero_count), v, refl)
    ]
  ]

  take_in-Stream :
      (h : AsioHandler C) (bs : Bytes) (now : ℕ)
      → IsValid buffer_size h.input
      → IsValid buffer_size (take_in h bs now).input
        × (contents (take_in h bs now).input ≡ push buffer_size (contents h.input) bs)
        × ((take_in h bs now).parsed ≡ h.parsed)
  unfolding take_in
  take_in-Stream h bs now v =
      let w = write-Written buffer_size h.input bs v in ground (arith, w.0, w.1)

module _ {C : Type 0} (parse : C → Bytes → ℕ × C × List Callback)
    (lawful : (c : C) (s : Bytes) → (parse c s).0 ≤ length s) where
  parse_data-Keeps :
      (h : AsioHandler C) → IsValid buffer_size h.input → Keeps (Stream h) (parse_data parse h)
  unfolding parse_data
  parse_data-Keeps h v =
      let r = parse h.amqp (contents h.input) in
      let h' : AsioHandler C = call_back (record h { amqp = r.1 }) r.2 in
      let same_input = call_back-input (record h { amqp = r.1 }) r.2 in
      let v' : IsValid buffer_size h'.input = rw same_input.0 v in
      let u = used-Keeps h' r.0 v' (
        omega (
          arith,
          lawful h.amqp (contents h.input),
          length-contents buffer_size h.input v,
          ap (λ (b : AmqpBuffer). b.used) same_input.0,
        )) in
      Keeps-if (Stream h) h.has_connection (used h' r.0) h
        (u.0, u.1, u.2, u.3 ∙ rw (same_input.0, same_input.1)) (h, refl, v, refl)

  -- When the connection uses at most the bytes that it is shown, the handler of a read fails no
  -- assertion, keeps the buffer valid and reads again; what was parsed, followed by what is in the
  -- buffer, is as before with those of the new bytes behind it for which the buffer had room.
  pub read_handler-Keeps :
      (h : AsioHandler C) (bs : Bytes) (now : ℕ)
      → IsValid buffer_size h.input
      → (h' : AsioHandler C) × (read_handler parse h bs now ≡ some h')
        × IsValid buffer_size h'.input
        × (h'.parsed ++ contents h'.input ≡ h.parsed ++ push buffer_size (contents h.input) bs)
        × (h'.reading ≡ true)
  unfolding read_handler do_read read_again
  read_handler-Keeps h bs now v =
      let t = take_in-Stream h bs now v in
      let p = parse_data-Keeps (take_in h bs now) t.0 in
      (record p.0 { reading = true }, ap read_again p.1, p.2, p.3 ∙ rw (t.1, t.2), refl)
