-- ===== src/Smtp/Host.antt =====
-- What an SMTP session calls outside its own state: the authenticator, OpenSSL's base64, the
-- address of the peer, and `SMTPRelay` of smtp/src/smtp_relay.cpp with the world that it changes
-- (mail directories, other servers, the clock).
use email_server.Auth.{Authenticator}
use email_server.Base.{Bool}
use email_server.Text.{Text}

pub record Host : Type 0 where
  pub auth : Authenticator
  pub open auth use *
  pub base64_decode : Text → Text
  pub base64_encode : Text → Text
  pub remote_address : Text

-- `deliver_local` takes the recipient's domain, his local part and the message; `deliver_remote`
-- the recipient, the sender and the message.
pub record Relay (W : Type 0) : Type 0 where
  pub deliver_local : W → Text → Text → Text → W × Bool
  pub deliver_remote : W → Text → Text → Text → W × Bool
  pub timestamp : W → Text
