-- ===== src/Net/Server/Tests.antt =====
-- A server for one connection at a time, with connections as its sessions.
use email_server.Base.{◌≡◌, refl, true, false, [], ◌∷◌, some, none}
use email_server.Net.Server.Limits.{IsServing, numbers, run-IsServing, run-full}
use email_server.Net.Server.{
  Server, accepted, goes_on, server, run, start, set_max_connections, do_accept, connection_count,
}
use email_server.Net.{Session, connect}
use email_server.Net as Net

abbrev begin : Session → Session
begin = λ session. session

abbrev started : Server Session
started = record (server 4) {
  running = true;
  is_open = true;
  threads = 4;
  max_connections = 1;
  accepts = 1;
}

abbrev full : Server Session
full = record started { sessions = (0, connect false) ∷ []; created = 1 }

run-IsServing_example : IsServing 1 (
    run begin started (
      accepted true none
      ∷ accepted false (some (connect false))
      ∷ goes_on 0 Net.stop
      ∷ accepted false (some (connect true))
      ∷ []))
unfolding start set_max_connections do_accept
run-IsServing_example =
    run-IsServing begin 4 1 started
      (accepted true none
        ∷ accepted false (some (connect false))
        ∷ goes_on 0 Net.stop
        ∷ accepted false (some (connect true))
        ∷ [])
      refl

run-full_example :
    numbers
      (run begin full (goes_on 0 Net.stop ∷ accepted false (some (connect false)) ∷ [])).sessions
    ≡ 0 ∷ []
unfolding connection_count
run-full_example =
    run-full begin full (goes_on 0 Net.stop ∷ accepted false (some (connect false)) ∷ []) refl
