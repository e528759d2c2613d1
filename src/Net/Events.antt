-- ===== src/Net/Events.antt =====
-- What can happen to a connection, in any order: its own handlers send, stop it or start TLS, and
-- Asio runs one of the lambdas that wait, completes a write, or lets the timer run out. The calls of
-- one handler are events of their own, so that other threads of the server may run between them. A
-- lambda runs as a whole, or, as with several threads, in two parts with other events between. What
-- two threads do to the bytes of one list at the same moment is not modelled.
use email_server.Base.{ℕ, zero, suc, Bool, List, [], ◌∷◌, Option, none, some}
use email_server.Net.{
  Session, send, stop, start_tls, run_posted, look, push, handle_write, handle_timeout,
}
use email_server.Text.{Text}

pub data Event : Type 0 where
  sends : Text → Event
  runs : ℕ → Event
  completes : Bool → Event
  stops : Event
  upgrades : Event
  times_out : Bool → Event
  looks : ℕ → Event
  pushes : ℕ → Event

-- The lambda at a place, and the others.
unfoldable pub take_posted {ℓ} : {A : Type ℓ} → List A → ℕ → Option (A × List A)
take_posted [] i = none
take_posted (x ∷ xs) zero = some (x, xs)
take_posted (x ∷ xs) (suc i) = elim (take_posted xs i) [
  | none ↦ none
  | some (y, ys) ↦ some (y, x ∷ ys)
]

unfoldable pub run_at : Option (Text × List Text) → Session → Session
run_at none s = s
run_at (some (text, others)) s = run_posted text (record s { posted = others })

-- A thread begins a lambda that waits, or ends one that was begun.
unfoldable pub look_at : Option (Text × List Text) → Session → Session
unfolding look
look_at none s = s
look_at (some (text, others)) s = look text (record s { posted = others })

unfoldable pub push_at : Option ((Bool × Text) × List (Bool × Text)) → Session → Session
unfolding push
push_at none s = s
push_at (some ((was_empty, text), others)) s = push was_empty text (record s { looked = others })

unfoldable pub complete : ℕ → Bool → Session → Session
complete zero failed s = s
complete (suc n) failed s = handle_write failed (record s { outstanding = n })

unfoldable pub step : Session → Event → Session
unfolding run_at complete look_at push_at
step s (sends text) = send text s
step s (runs i) = run_at (take_posted s.posted i) s
step s (completes failed) = complete s.outstanding failed s
step s stops = stop s
step s upgrades = start_tls s
step s (times_out cancelled) = handle_timeout cancelled s
step s (looks i) = look_at (take_posted s.posted i) s
step s (pushes i) = push_at (take_posted s.looked i) s

unfoldable pub run : Session → List Event → Session
run s [] = s
run s (e ∷ es) = run (step s e) es
