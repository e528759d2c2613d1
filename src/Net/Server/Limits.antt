-- ===== src/Net/Server/Limits.antt =====
-- The limit of connections over any course of a server: it is kept, connections go on to be accepted,
-- and once it is reached it stays reached, whatever becomes of the sessions.
use email_server.Base.{
  ℕ, zero, suc, ◌≤◌, ◌≡◌, refl, sym, subst, ◌∙◌, Bool, true, false, List, [], ◌∷◌, Option, none,
  some, arith, length, ltb,
}
use email_server.Net.Server.{
  Server, Event, accepted, goes_on, server, start, set_max_connections, do_accept, handle_accept,
  admit, keep_session, connection_count, complete, step, run, changed,
}

-- A server that runs, with one accept under way, and no more sessions than its limit.
pub record IsServing {ℓ} {S : Type ℓ} (limit : ℕ) (s : Server S) : Type 0 where
  pub is_running : s.running ≡ true
  pub one_accept : s.accepts ≡ 1
  pub same_limit : s.max_connections ≡ limit
  pub in_limit : connection_count s ≤ limit

-- The numbers of the sessions that a server holds, those that came last in front.
abbrev pub numbers {ℓ} : {S : Type ℓ} → List (ℕ × S) → List ℕ
numbers [] = []
numbers ((n, session) ∷ rest) = n ∷ numbers rest

-- What holds of a server, if there is one.
abbrev Held {ℓ} : {S : Type ℓ} → ℕ → Option (Server S) → Type 0
Held limit none = Unit
Held limit (some s) = IsServing limit s

module _ {ℓ} {S : Type ℓ} (begin : S → S) where
  length-changed :
      (number : ℕ) (f : S → S) (sessions : List (ℕ × S))
      → length (changed number f sessions) ≡ length sessions
  unfolding changed
  length-changed number f [] = refl
  length-changed number f ((n, session) ∷ rest) = ground (arith, length-changed number f rest)

  numbers-changed :
      (number : ℕ) (f : S → S) (sessions : List (ℕ × S))
      → numbers (changed number f sessions) ≡ numbers sessions
  unfolding changed
  numbers-changed number f [] = refl
  numbers-changed number f ((n, session) ∷ rest) = ground (arith, numbers-changed number f rest)

  accept-IsServing :
      (limit : ℕ) (failed : Bool) (session : Option S) (s : Server S)
      → s.running ≡ true
      → s.max_connections ≡ limit
      → connection_count s ≤ limit
      → IsServing limit (handle_accept begin failed session (record s { accepts = 0 }))
  unfolding handle_accept admit keep_session connection_count do_accept
  accept-IsServing limit failed none s running same kept = record {
    is_running = ground arith;
    one_accept = ground arith;
    same_limit = ground arith;
    in_limit = ground arith;
  }
  accept-IsServing limit failed (some session) s running same kept = record {
    is_running = ground arith;
    one_accept = ground arith;
    same_limit = ground arith;
    in_limit = ground arith;
  }

  step-IsServing :
      (limit : ℕ) (s : Server S) (e : Event S)
      → IsServing limit s
      → IsServing limit (step begin s e)
  unfolding step complete connection_count
  step-IsServing limit s (accepted failed session) h =
      subst (λ n. IsServing limit (complete begin failed session n s)) (sym h.one_accept)
        (accept-IsServing limit failed session s h.is_running h.same_limit h.in_limit)
  step-IsServing limit s (goes_on number f) h = record {
    is_running = h.is_running;
    one_accept = h.one_accept;
    same_limit = h.same_limit;
    in_limit = omega (arith, length-changed number f s.sessions, h.in_limit);
  }

  run_lem :
      (limit : ℕ) (s : Server S) (es : List (Event S))
      → IsServing limit s
      → IsServing limit (run begin s es)
  unfolding run
  run_lem limit s [] h = h
  run_lem limit s (e ∷ es) h = run_lem limit (step begin s e) es (step-IsServing limit s e h)

  start-IsServing :
      (thread_count limit : ℕ) (s : Server S)
      → start true (set_max_connections limit (server thread_count)) ≡ some s
      → IsServing limit s
  unfolding start set_max_connections do_accept connection_count
  start-IsServing thread_count limit s started =
      subst (Held limit) started
        record { is_running = refl; one_accept = refl; same_limit = refl; in_limit = omega arith }

  -- While a server that has been started with a limit runs, whatever its sessions and the connections
  -- that come in do, it runs on with exactly one accept under way, the same limit, and no more sessions
  -- than that.
  pub run-IsServing :
      (thread_count limit : ℕ) (s : Server S) (es : List (Event S))
      → start true (set_max_connections limit (server thread_count)) ≡ some s
      → IsServing limit (run begin s es)
  run-IsServing thread_count limit s es started =
      run_lem limit s es (start-IsServing thread_count limit s started)

  complete-full :
      (s : Server S) (failed : Bool) (session : Option S) (n : ℕ)
      → ltb (connection_count s) s.max_connections ≡ false
      → let t = complete begin failed session n s in
        (numbers t.sessions ≡ numbers s.sessions)
        × (ltb (connection_count t) t.max_connections ≡ false)
  unfolding complete handle_accept admit do_accept connection_count
  complete-full s failed session zero full = (refl, full)
  complete-full s failed session (suc n) full = ground (arith, full)

  step-full :
      (s : Server S) (e : Event S)
      → ltb (connection_count s) s.max_connections ≡ false
      → (numbers (step begin s e).sessions ≡ numbers s.sessions)
        × (ltb (connection_count (step begin s e)) (step begin s e).max_connections ≡ false)
  unfolding step connection_count
  step-full s (accepted failed session) full = complete-full s failed session s.accepts full
  step-full s (goes_on number f) full =
      let same = length-changed number f s.sessions in
      (numbers-changed number f s.sessions, ground (arith, same))

  -- A server that has reached its limit holds the same sessions for as long as it runs, whatever comes
  -- in and whatever becomes of its sessions: no later connection gets a session, not even when all of
  -- them have ended.
  pub run-full :
      (s : Server S) (es : List (Event S))
      → ltb (connection_count s) s.max_connections ≡ false
      → numbers (run begin s es).sessions ≡ numbers s.sessions
  unfolding run
  run-full s [] full = refl
  run-full s (e ∷ es) full =
      let (same, still) = step-full s e full in run-full (step begin s e) es still ∙ same
