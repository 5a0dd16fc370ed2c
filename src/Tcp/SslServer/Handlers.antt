-- ===== src/Tcp/SslServer/Handlers.antt =====
-- bingo/TCP/tcp_ssl_server.h: what becomes of the handlers.
use bingo_v.Prelude.{
  ℕ, suc, ◌+◌, ◌≡◌, refl, Bool, true, false, Option, none, some, List, [], ◌∷◌, length, arith,
}
use bingo_v.ErrorWhat.{ErrorWhat}
use bingo_v.Tcp.SslServer.{
  SslServerAction, new_handler, handler_start, handler_refuse, delete_handler, start_accept,
  accept_handler, accept_all,
}

-- What a server does with the handlers that it makes.
record Fates : Type 0 where
  made : ℕ
  started : ℕ
  refused : ℕ
  deleted : ℕ

tally : SslServerAction → Fates → Fates
tally (new_handler h) f = record f { made = suc f.made }
tally (handler_start h) f = record f { started = suc f.started }
tally (handler_refuse h e) f = record f { refused = suc f.refused }
tally (delete_handler h) f = record f { deleted = suc f.deleted }
tally _ f = f

fates : List SslServerAction → Fates
fates [] = record { made = 0; started = 0; refused = 0; deleted = 0 }
fates (a ∷ rest) = tally a (fates rest)

failures : List (Bool × Option ErrorWhat) → ℕ
failures [] = 0
failures ((true, reply) ∷ outcomes) = failures outcomes
failures ((false, reply) ∷ outcomes) = suc (failures outcomes)

-- After any accepts, a handler was made for each; each of the handlers that waited was started, refused
-- or deleted, and those deleted are as many as the accepts that failed: one that the application
-- refuses is not deleted here.
accept_all-fates :
    (h : ℕ) (outcomes : List (Bool × Option ErrorWhat))
    → ((fates (accept_all h outcomes)).made ≡ length outcomes)
      × ((fates (accept_all h outcomes)).started
            + (fates (accept_all h outcomes)).refused
            + (fates (accept_all h outcomes)).deleted
          ≡ length outcomes)
      × ((fates (accept_all h outcomes)).deleted ≡ failures outcomes)
unfolding accept_all accept_handler start_accept fates tally failures
accept_all-fates h [] = (refl, refl, refl)
accept_all-fates h ((true, none) ∷ outcomes) = ground (arith, accept_all-fates (suc h) outcomes)
accept_all-fates h ((true, some e) ∷ outcomes) = ground (arith, accept_all-fates (suc h) outcomes)
accept_all-fates h ((false, reply) ∷ outcomes) = ground (arith, accept_all-fates (suc h) outcomes)
