-- ===== src/Net/Server.antt =====
-- `Server` of common/include/net/server.hpp, for sessions of any type: the set of sessions, the limit
-- of connections, and the accepts under way. A session is held by a number for the identity of its
-- pointer. The threads run the handlers, one after the other here; `connection_count` and the insertion
-- are two steps under the mutex in the source, but only one accept is under way.
use email_server.Base.{
  ℕ, zero, suc, ◌+◌, ◌-◌, Bool, true, false, not, ◌&&◌, ◌||◌, List, [], ◌∷◌, map, Option, none,
  some, length, ltb, ◌==◌, if◌then◌else◌,
}
pub mod Limits
mod Tests

-- `is_open` is whether the acceptor has been opened; `accepts` counts the calls of `async_accept`
-- whose handler has not run; `created` counts the sessions that were made.
pub record Server {ℓ} (S : Type ℓ) : Type ℓ where
  pub running : Bool
  pub is_open : Bool
  pub thread_count : ℕ
  pub threads : ℕ
  pub max_connections : ℕ
  pub sessions : List (ℕ × S)
  pub accepts : ℕ
  pub created : ℕ

abbrev pub server {ℓ} : {S : Type ℓ} → ℕ → Server S
server thread_count = record {
  running = false;
  is_open = false;
  thread_count = thread_count;
  threads = 0;
  max_connections = 1000;
  sessions = [];
  accepts = 0;
  created = 0;
}

unfoldable pub connection_count {ℓ} : {S : Type ℓ} → Server S → ℕ
connection_count s = length s.sessions

unfoldable pub do_accept {ℓ} : {S : Type ℓ} → Server S → Server S
do_accept s = record s { accepts = s.accepts + 1 }

-- `Server::start`; `none` is an exception: the acceptor is open already, or it cannot be bound.
unfoldable pub start {ℓ} : {S : Type ℓ} → Bool → Server S → Option (Server S)
unfolding do_accept
start can_bind s =
    if s.running
    then some s
    else if s.is_open || not can_bind
    then none
    else some (
        do_accept
          (record s { is_open = true; running = true; threads = s.threads + s.thread_count }))

-- `Server::stop`: every session is stopped, and forgotten; the second part is these sessions. Asio runs
-- no handler any more.
unfoldable pub stop {ℓ} : {S : Type ℓ} → (S → S) → Server S → Server S × List (ℕ × S)
stop halt s =
    if s.running
    then (
      record s { running = false; sessions = []; threads = 0 },
      map (λ numbered. (numbered.0, halt numbered.1)) s.sessions,
    )
    else (s, [])

-- `Server::set_max_connections`.
unfoldable pub set_max_connections {ℓ} : {S : Type ℓ} → ℕ → Server S → Server S
set_max_connections limit s = record s { max_connections = limit }

-- `Server::remove_session`.
unfoldable pub remove_from {ℓ} : {S : Type ℓ} → ℕ → List (ℕ × S) → List (ℕ × S)
remove_from number [] = []
remove_from number ((n, session) ∷ rest) =
    let others = remove_from number rest in if n == number then others else (n, session) ∷ others

unfoldable pub remove_session {ℓ} : {S : Type ℓ} → ℕ → Server S → Server S
unfolding remove_from
remove_session number s = record s { sessions = remove_from number s.sessions }

-- A session that was created is inserted, and started.
unfoldable pub keep_session {ℓ} : {S : Type ℓ} → (S → S) → Option S → Server S → Server S
keep_session begin none s = s
keep_session begin (some session) s = record s {
  sessions = (s.created, begin session) ∷ s.sessions;
  created = suc s.created;
}

-- A connection that comes in: `ec`, and what the factory makes of the socket.
unfoldable pub admit {ℓ} : {S : Type ℓ} → (S → S) → Bool → Option S → Server S → Server S
unfolding keep_session connection_count
admit begin failed session s =
    if not failed && s.running
    then if ltb (connection_count s) s.max_connections then keep_session begin session s else s
    else s

-- The handler of `async_accept`.
unfoldable pub handle_accept {ℓ} : {S : Type ℓ} → (S → S) → Bool → Option S → Server S → Server S
unfolding admit do_accept
handle_accept begin failed session s =
    let admitted = admit begin failed session s in
    if admitted.running then do_accept admitted else admitted

-- What a session makes of its own state changes it in its place.
unfoldable pub changed {ℓ} : {S : Type ℓ} → ℕ → (S → S) → List (ℕ × S) → List (ℕ × S)
changed number f [] = []
changed number f ((n, session) ∷ rest) =
    let others = changed number f rest in
    if n == number then (n, f session) ∷ others else (n, session) ∷ others

-- What happens while the server runs: an accept is completed, or a session goes on, which may be that
-- it stops, since its connection is closed.
pub data Event {ℓ} (S : Type ℓ) : Type ℓ where
  accepted : Bool → Option S → Event S
  goes_on : ℕ → (S → S) → Event S

-- A completion needs an accept under way.
unfoldable pub complete {ℓ} : {S : Type ℓ} → (S → S) → Bool → Option S → ℕ → Server S → Server S
unfolding handle_accept
complete begin failed session zero s = s
complete begin failed session (suc n) s =
    handle_accept begin failed session (record s { accepts = n })

unfoldable pub step {ℓ} : {S : Type ℓ} → (S → S) → Server S → Event S → Server S
unfolding complete changed
step begin s (accepted failed session) = complete begin failed session s.accepts s
step begin s (goes_on number f) = record s { sessions = changed number f s.sessions }

unfoldable pub run {ℓ} : {S : Type ℓ} → (S → S) → Server S → List (Event S) → Server S
unfolding step
run begin s [] = s
run begin s (e ∷ es) = run begin (step begin s e) es
