-- ===== src/RabbitMq/Sendor/Threads.antt =====
-- bingo/RabbitMQ/handlers: which connections connet_to_server starts.
use bingo_v.Prelude.{
  ℕ, zero, suc, ◌≡◌, refl, sym, ◌∙◌, ap, Bool, true, false, some, List, [], ◌∷◌, ◌++◌, append-nil,
  append_assoc, length, get_elem?, drop, if◌then◌else◌, arith,
}
use bingo_v.Bytes.{Bytes}
use bingo_v.RabbitMq.Config.{is_type}
use bingo_v.RabbitMq.SendorCfg.{RbSendorCfg, RbSendorCfgValue, Values, size, at_index, value_of}
use bingo_v.RabbitMq.Sendor.Keyed.{KeyedSendor, start_threads, connect}

-- The values of a type, in the order of their keys.
abbrev pub of_type : ℕ → Values → List RbSendorCfgValue
of_type type [] = []
of_type type ((k, v) ∷ rest) =
    if is_type type v.type then v ∷ of_type type rest else of_type type rest

drop-suc :
    (i : ℕ) (vs rest : Values) (p : Bytes × RbSendorCfgValue)
    → drop i vs ≡ p ∷ rest
    → (get_elem? vs i ≡ some p) × (drop (suc i) vs ≡ rest)
drop-suc zero [] rest p e = absurd (ground (arith, e))
drop-suc zero (v ∷ vs) rest p e = ground (arith, e)
drop-suc (suc i) [] rest p e = absurd (ground (arith, e))
drop-suc (suc i) (v ∷ vs) rest p e = drop-suc i vs rest p e

module _ (type : ℕ) (c : RbSendorCfg) where
  start_threads-step :
      (left i : ℕ) (ts : List RbSendorCfgValue) (p : Bytes × RbSendorCfgValue)
      → get_elem? c.values i ≡ some p
      → start_threads type c (suc left) i ts
        ≡ start_threads type c left (suc i) (if is_type type p.1.type then ts ++ (p.1 ∷ []) else ts)
  unfolding start_threads at_index value_of
  start_threads-step left i ts p e = ground (arith, e)

  start_threads-of_type :
      (vs : Values) (i : ℕ) (ts : List RbSendorCfgValue)
      → drop i c.values ≡ vs
      → start_threads type c (length vs) i ts ≡ some (ts ++ of_type type vs)
  unfolding start_threads
  start_threads-of_type [] i ts e = ap some (sym (append-nil ts))
  start_threads-of_type ((k, v) ∷ rest) i ts e =
      let d = drop-suc i c.values rest (k, v) e in
      start_threads-step (length rest) i ts (k, v) d.0
      ∙ start_threads-of_type rest (suc i) _ d.1
      ∙ ap some (chosen (is_type type v.type))
    where
      chosen :
          (b : Bool)
          → (if b then ts ++ (v ∷ []) else ts) ++ of_type type rest
            ≡ ts ++ (if b then v ∷ of_type type rest else of_type type rest)
      chosen true = append_assoc ts (v ∷ []) (of_type type rest)
      chosen false = refl

-- connet_to_server of a valid sender sets the logger and starts a connection for each value of its type,
-- in the order of the keys, and for no other; it changes nothing else.
pub connect-threads :
    (type : ℕ) (s : KeyedSendor) (has_log : Bool)
    → s.is_valid ≡ true
    → connect type s has_log
      ≡ some (record s { has_logger = has_log; threads = s.threads ++ of_type type s.cfg.values })
unfolding connect size
connect-threads type s has_log valid =
    let e = start_threads-of_type type s.cfg s.cfg.values 0 s.threads refl in ground (arith, e)
