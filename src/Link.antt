-- ===== src/Link.antt =====
-- src/daemon.rs, `Link`: one connection to a phone.
use passkey.Base.{ℕ, Bool, true}
use passkey.Base.Text.{Text, codes, split_whitespace, join}

-- `serial` is the identity that `Arc::ptr_eq` compares. The socket, the channel of responses and
-- the pong flag belong to the threads that read and write: see the modules that use a link.
pub record Link : Type 0 where
  pub serial : ℕ
  pub name : Text
  pub device : Text
  pub label : Text
  pub priority : ℕ
  pub alive : Bool

-- `Link::new`; the label's runs of whitespace become single spaces.
unfoldable pub new : ℕ → Text → ℕ → Text → Text → Link
unfolding split_whitespace join
new serial name priority label device = record {
  serial = serial;
  name = name;
  device = device;
  label = join (codes " ") (split_whitespace label);
  priority = priority;
  alive = true;
}
