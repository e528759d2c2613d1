-- ===== src/Maildir.antt =====
-- common/include/storage/maildir.hpp: `Message` and `MailboxInfo`. A flag is a byte, and a `std::set`
-- of flags is a list of them in ascending order. A path is the directory, `new` or `cur`, and the name
-- of the file in it.
pub mod Names
pub mod Disk
pub mod Mailbox
pub mod Named
pub mod Account
pub mod Files
pub mod Delivery
pub mod Service
mod Tests
use email_server.Base.{ℕ, Bool, List, ltb}
use email_server.Text.Sets.{member}
use email_server.Text.{Text}

pub record Message : Type 0 where
  pub unique_id : Text
  pub filename : Text
  pub size : ℕ
  pub timestamp : ℕ
  pub flags : List ℕ
  pub is_new : Bool

-- `Message::has_flag`, and the flags that are asked for.
abbrev pub has_flag : ℕ → Message → Bool
has_flag flag msg = member ltb flag msg.flags

abbrev pub is_seen : Message → Bool
is_seen = has_flag b'S'

abbrev pub is_deleted : Message → Bool
is_deleted = has_flag b'T'

-- The fields that are read: neither `is_selectable` nor `has_children` nor the flags ever are.
pub record MailboxInfo : Type 0 where
  pub name : Text
  pub total_messages : ℕ
  pub recent_messages : ℕ
  pub unseen_messages : ℕ
  pub total_size : ℕ
  pub uid_validity : ℕ
  pub uid_next : ℕ
