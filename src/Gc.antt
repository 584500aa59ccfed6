-- ===== src/Gc.antt =====
-- The garbage collector's view of the four classes: the mark functions, and the free functions
-- that a sweep calls.
pub mod Closed
pub mod Writes
pub mod Initialize
pub mod Keeper
pub mod Methods
pub mod Live
pub mod System
pub mod Types
pub mod Generations
use libssh_ruby.Base.{ℕ, Option, none, some}
use libssh_ruby.Value.{Value}
use libssh_ruby.Libssh.{Handle, Platform}
use libssh_ruby.Runtime.{Holder, session, key, channel, scp, World, Action, pure}
use libssh_ruby.Key.{key_free}
use libssh_ruby.Session.{session_free}
use libssh_ruby.Channel.{channel_free}
use libssh_ruby.Scp.{scp_free}

-- The session of a channel is marked if the channel is not NULL.
abbrev pub channel_mark : Handle → Value → Option Value
channel_mark none v = none
channel_mark (some c) v = some v

abbrev pub scp_mark : Handle → Value → Option Value
scp_mark none v = none
scp_mark (some p) v = some v

-- `session_mark` marks nothing.
abbrev pub session_mark : Handle → Option Value
session_mark s = none

-- The value that the object of a holder marks; a key has no mark function.
abbrev pub marks : Option Holder → Option Value
marks (some (session s)) = session_mark s
marks (some (channel c v)) = channel_mark c v
marks (some (scp p v)) = scp_mark p v
marks _ = none

module _ (P : Platform) where
  abbrev free_of : Option Holder → ℕ → Action P.State (Unit {0})
  free_of none a = pure tt
  free_of (some (session s)) a = session_free P a
  free_of (some (key k)) a = key_free P a
  free_of (some (channel c v)) a = channel_free P a
  free_of (some (scp p v)) a = scp_free P a

  -- The sweep of one object: the free function of its class.
  unfoldable pub sweep : ℕ → Action P.State (Unit {0})
  sweep a w = free_of (w.heap a) a w
