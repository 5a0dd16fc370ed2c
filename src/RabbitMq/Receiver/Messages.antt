-- ===== src/RabbitMq/Receiver/Messages.antt =====
-- bingo/RabbitMQ/handlers/work_receiver.cpp and simple_receiver.cpp: what becomes of messages.
use bingo_v.Prelude.{ℕ, ◌≡◌, sym, ◌∙◌, true, List, [], ◌∷◌, ◌++◌, append-nil, append_assoc, arith}
use bingo_v.Bytes.{Bytes}
use bingo_v.RabbitMq.Receiver.{Receiver, Operation, ack, receive_message, work_message}

-- Messages with their delivery tags, one after the other.
unfoldable pub receive_all :
    (Receiver → Bytes → ℕ → Receiver) → Receiver → List (Bytes × ℕ) → Receiver
receive_all on_message r [] = r
receive_all on_message r ((m, tag) ∷ ms) = receive_all on_message (on_message r m tag) ms

abbrev texts : List (Bytes × ℕ) → List Bytes
texts [] = []
texts ((m, tag) ∷ ms) = m ∷ texts ms

abbrev acks : List (Bytes × ℕ) → List Operation
acks [] = []
acks ((m, tag) ∷ ms) = ack tag ∷ acks ms

-- With a callback, a work receiver calls it once with each message, in order, and acknowledges each
-- message once, in order; it asks for nothing else.
pub work_message-acks :
    (ms : List (Bytes × ℕ)) (r : Receiver)
    → r.has_callback ≡ true
    → ((receive_all work_message r ms).called ≡ r.called ++ texts ms)
      × ((receive_all work_message r ms).asked ≡ r.asked ++ acks ms)
unfolding receive_all work_message receive_message
work_message-acks [] r f = (sym (append-nil r.called), sym (append-nil r.asked))
work_message-acks ((m, tag) ∷ ms) r f =
    let ih = work_message-acks ms (work_message r m tag) (ground arith) in
    (
      ih.0 ∙ ground (arith, append_assoc r.called (m ∷ []) (texts ms)),
      ih.1 ∙ ground (arith, append_assoc r.asked (ack tag ∷ []) (acks ms)),
    )
