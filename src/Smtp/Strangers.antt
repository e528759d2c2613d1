-- ===== src/Smtp/Strangers.antt =====
-- What a client can bring about whose credentials the authenticator never accepts.
use email_server.Base.{
  ◌≡◌, refl, ◌∙◌, Bool, true, false, List, [], ◌∷◌, ◌++◌, Option, none, some, arith, inl, inr, ◌⊎◌,
}
use email_server.Smtp.Address
use email_server.Smtp.Address.{EmailAddress}
use email_server.Smtp.Delivery.{deliver_to, deliver_all, deliver_message, received_header}
use email_server.Smtp.Host.{Host, Relay}
use email_server.Smtp.Invariant.{IsConsistent}
use email_server.Smtp.Invariant.Lines.{handle_read-IsConsistent}
use email_server.Smtp.Logins.{SameLogin, Proven}
use email_server.Smtp.Logins.Lines.{handle_read-Change}
use email_server.Smtp.Protocol.{end_data, process_data_line, on_data, handle_read, run_lines}
use email_server.Smtp.{SmtpSession}
use email_server.Text.{Text}

-- No name and password are accepted.
abbrev pub RefusesAll : Host → Type 0
RefusesAll h = (username password : Text) → h.authenticate username password ≡ false

same-authenticated :
    (h : Host) (s t : SmtpSession)
    → RefusesAll h
    → SameLogin s t ⊎ Proven h t
    → t.authenticated ≡ s.authenticated
same-authenticated h s t no_one (inl same) = same.authenticated
same-authenticated h s t no_one (inr p) = cc (no_one p.user p.password, p.accepted)

module _ {W : Type 0} (h : Host) (r : Relay W) where
  handle_read-world :
      (line : Text) (s : SmtpSession) (w : W)
      → s.require_auth ≡ true
      → s.authenticated ≡ false
      → IsConsistent s
      → (handle_read h r line s w).0 ≡ w
  unfolding handle_read on_data
  handle_read-world line s w q a v = ground arith

  -- Where a login is required, a client whose credentials are never accepted changes nothing outside
  -- of his session, if it is consistent and nobody is logged in: no message of his is delivered,
  -- locally or remotely, whatever he sends.
  pub run_lines-world :
      (lines : List Text) (s : SmtpSession) (w : W)
      → RefusesAll h
      → s.require_auth ≡ true
      → s.authenticated ≡ false
      → IsConsistent s
      → (run_lines h r lines s w).0 ≡ w
  unfolding run_lines
  run_lines-world [] s w no_one q a v = refl
  run_lines-world (line ∷ rest) s w no_one q a v =
      let after = handle_read h r line s w in
      let change = handle_read-Change h r line s w in
      run_lines-world rest after.1 after.0 no_one (change.settings.auth ∙ q)
        (same-authenticated h s after.1 no_one change.login ∙ a)
        (handle_read-IsConsistent h r line s w v)
      ∙ handle_read-world line s w q a v

-- Two relays that differ in the delivery to other servers only.
pub record AgreeLocally {W : Type 0} (r r' : Relay W) : Type 0 where
  pub local :
      (w : W) (domain user message : Text)
      → r'.deliver_local w domain user message ≡ r.deliver_local w domain user message
  pub clock : (w : W) → r'.timestamp w ≡ r.timestamp w

module _ {W : Type 0} (h : Host) (r r' : Relay W) (agree : AgreeLocally r r') where
  deliver_to-agree :
      (a : Option EmailAddress) (recipient message : Text) (s : SmtpSession) (w : W)
      → s.allow_relay ≡ false
      → s.authenticated ≡ false
      → deliver_to h r' a recipient message s w ≡ deliver_to h r a recipient message s w
  unfolding deliver_to
  deliver_to-agree none recipient message s w o a = refl
  deliver_to-agree (some addr) recipient message s w o a =
      ground (arith, agree.local w addr.domain addr.local_part message)

  deliver_all-agree :
      (recipients : List Text) (message : Text) (s : SmtpSession) (w : W) (all_delivered : Bool)
      → s.allow_relay ≡ false
      → s.authenticated ≡ false
      → deliver_all h r' recipients message s w all_delivered
        ≡ deliver_all h r recipients message s w all_delivered
  unfolding deliver_all
  deliver_all-agree [] message s w all_delivered o a = refl
  deliver_all-agree (recipient ∷ rest) message s w all_delivered o a =
      rw (deliver_to-agree (Address.parse recipient) recipient message s w o a)
        (deliver_all-agree rest message s _ _ o a)

  deliver_message-agree :
      (s : SmtpSession) (w : W)
      → s.allow_relay ≡ false
      → s.authenticated ≡ false
      → deliver_message h r' s w ≡ deliver_message h r s w
  unfolding deliver_message
  deliver_message-agree s w o a =
      let message = received_header h.remote_address (r.timestamp w) s ++ s.data_buffer in
      let kept = record s { envelope = record (s.envelope) { message = message } } in
      rw (agree.clock w) (rw (deliver_all-agree s.envelope.rcpt_to message kept w true o a))

  handle_read-agree :
      (line : Text) (s : SmtpSession) (w : W)
      → s.allow_relay ≡ false
      → s.authenticated ≡ false
      → handle_read h r' line s w ≡ handle_read h r line s w
  unfolding handle_read on_data process_data_line end_data
  handle_read-agree line s w o a = simp (deliver_message-agree s w o a)

  -- Where relaying is not allowed and nobody is logged in, a client whose credentials are never
  -- accepted cannot reach the delivery to other servers: replacing it by any other changes neither
  -- the session nor the world.
  pub run_lines-agree :
      (lines : List Text) (s : SmtpSession) (w : W)
      → RefusesAll h
      → s.allow_relay ≡ false
      → s.authenticated ≡ false
      → run_lines h r' lines s w ≡ run_lines h r lines s w
  unfolding run_lines
  run_lines-agree [] s w no_one o a = refl
  run_lines-agree (line ∷ rest) s w no_one o a =
      let after = handle_read h r line s w in
      let change = handle_read-Change h r line s w in
      rw (handle_read-agree line s w o a) (
        run_lines-agree rest after.1 after.0 no_one (change.settings.relay ∙ o)
          (same-authenticated h s after.1 no_one change.login ∙ a))
