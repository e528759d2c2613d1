-- ===== src/Smtp.antt =====
-- smtp/include/smtp_session.hpp: the state of an SMTP connection. `SMTPSession` extends the
-- connection of common/include/net/session.hpp, here the field `base`.
pub mod Reply
pub mod Address
pub mod Command
pub mod Host
pub mod Login
pub mod Handlers
pub mod Delivery
pub mod Protocol
pub mod Invariant
pub mod Logins
pub mod Strangers
pub mod Relay
pub mod Dialogue
pub mod Message
pub mod Farewell
mod Tests
use email_server.Base.{ℕ, Bool, true, false, not, ◌&&◌, List, [], ◌==◌, ◌*◌}
use email_server.Net.{Session, connect}
use email_server.Net
use email_server.Text.{Text}

pub data SessionState : Type 0 where
  connected greeted mail rcpt in_data quit : SessionState

pub data AuthState : Type 0 where
  idle plain_waiting login_waiting_username login_waiting_password authenticated_state : AuthState

pub record Envelope : Type 0 where
  pub mail_from : Text
  pub rcpt_to : List Text
  pub message : Text

-- `Envelope::clear`.
abbrev pub clear : Envelope
clear = record { mail_from = []; rcpt_to = []; message = [] }

pub record SmtpSession : Type 0 where
  pub base : Session
  pub open base use *
  pub state : SessionState
  pub auth_state : AuthState
  pub envelope : Envelope
  pub client_hostname : Text
  pub hostname : Text
  pub local_domains : List Text
  pub max_message_size : ℕ
  pub max_recipients : ℕ
  pub require_auth : Bool
  pub allow_relay : Bool
  pub starttls_offered : Bool
  pub has_ssl_context : Bool
  pub auth_username : Text
  pub data_buffer : Text

-- `SMTPSession::SMTPSession`; over TLS from the start there is no STARTTLS to offer.
unfoldable pub open_session : Bool → Text → List Text → SmtpSession
open_session over_tls hostname local_domains = record {
  base = connect over_tls;
  state = connected;
  auth_state = idle;
  envelope = clear;
  client_hostname = [];
  hostname = hostname;
  local_domains = local_domains;
  max_message_size = 25 * 1024 * 1024;
  max_recipients = 100;
  require_auth = true;
  allow_relay = false;
  starttls_offered = not over_tls;
  has_ssl_context = false;
  auth_username = [];
  data_buffer = [];
}

-- `SMTPSession::starttls_available`.
abbrev pub starttls_available : SmtpSession → Bool
starttls_available s = s.starttls_offered && not s.is_tls

unfoldable pub send_line : Text → SmtpSession → SmtpSession
send_line line s = record s { base = Net.send_line line s.base }

abbrev pub set_state : SessionState → SmtpSession → SmtpSession
set_state state s = record s { state = state }

abbrev pub set_auth_state : AuthState → SmtpSession → SmtpSession
set_auth_state state s = record s { auth_state = state }
