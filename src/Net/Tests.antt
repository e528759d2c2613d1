-- ===== src/Net/Tests.antt =====
-- The properties of a connection at concrete sessions and events.
use email_server.Base.{◌≡◌, refl, true, false, List, [], ◌∷◌, ◌++◌, arith}
use email_server.Net.Events.{
  Event, sends, runs, completes, upgrades, times_out, looks, pushes, take_posted, step, run,
}
use email_server.Net.Order.{
  OneWrite, account, sent, run-OneWrite, account-run, run-looked, connect-OneWrite,
}
use email_server.Net.Stopped.{run-wire}
use email_server.Net.{Session, plain, connect, send, start_tls, run_posted, handle_write}

abbrev opened : Session
opened = connect false

-- Two texts are sent, the first is written, and TLS is started before the second is.
abbrev exchange : List Event
exchange = sends (b'a' ∷ []) ∷ sends (b'b' ∷ []) ∷ runs 0 ∷ runs 0 ∷ upgrades ∷ completes false ∷ []

-- The lambdas run in the other order, and the timer stops the session.
abbrev mixed : List Event
mixed =
    sends (b'a' ∷ [])
    ∷ sends (b'b' ∷ [])
    ∷ runs 1
    ∷ runs 0
    ∷ completes false
    ∷ times_out false
    ∷ completes false
    ∷ []

abbrev closed : Session
closed = record opened { stopped = true }

run-OneWrite_example : OneWrite (run opened mixed)
run-OneWrite_example =
    run-OneWrite opened mixed (tt, (tt, (tt, (tt, (tt, (tt, (tt, tt))))))) (connect-OneWrite false)

account-run_example : account (run opened exchange) ≡ account opened ++ sent exchange
unfolding run step start_tls take_posted send run_posted handle_write
account-run_example = account-run opened exchange (connect-OneWrite false) (ground arith) refl

run-wire_example : (run closed mixed).wire ≡ []
run-wire_example = run-wire closed mixed refl

-- Two texts wait, and two threads take them up.
abbrev hurried : Session
hurried = record opened { posted = (b'a' ∷ []) ∷ (b'b' ∷ []) ∷ [] }

run-looked_example :
    let t = run hurried (looks 0 ∷ looks 0 ∷ pushes 0 ∷ pushes 0 ∷ []) in
    (t.outstanding ≡ 2)
    × (t.wire ≡ [] ++ (plain, b'a' ∷ []) ∷ (plain, b'a' ∷ []) ∷ [])
    × (t.write_queue ≡ (b'a' ∷ []) ∷ (b'b' ∷ []) ∷ [])
run-looked_example = run-looked hurried (b'a' ∷ []) (b'b' ∷ []) [] refl refl refl refl
