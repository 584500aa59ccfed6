-- ===== src/Sound.antt =====
-- Whether the C functions ever fault.
pub mod Select
pub mod Conversions
pub mod Sessions
pub mod Channels
pub mod Scps
pub mod Keys
pub mod Blocks
pub mod Opened
pub mod Reachable
pub mod NullScp
use libssh_ruby.Base.{ℕ, ℤ, Bool, Bytes, ◌≢◌, Option, none, some}
use libssh_ruby.Runtime.{Holder, Heap, scp}
use libssh_ruby.Value.{Value, object, Values, Result, fault}
use libssh_ruby.Libssh.{
  Handle, Platform, ssh_channel_read_timeout, ssh_channel_read_nonblocking, ssh_scp_read,
}
use libssh_ruby.Channel.Stream.Buffers.{Fits}

-- What is assumed of libssh and of Ruby: libssh writes no more than the buffer holds, and Ruby's
-- conversions return or raise.
pub record Honest (P : Platform) : Type 0 where
  pub read_fits :
      (c : Handle) (n : ℕ) (err : Bool) (t : ℤ) (s : P.State)
      → Fits n (P.answer (ssh_channel_read_timeout c n err t) s).0
  pub nonblocking_fits :
      (c : Handle) (n : ℕ) (err : Bool) (s : P.State)
      → Fits n (P.answer (ssh_channel_read_nonblocking c n err) s).0
  pub scp_fits : (p : Handle) (n : ℕ) (s : P.State) → Fits n (P.answer (ssh_scp_read p n) s).0
  pub to_str_returns : (v : Value) → P.to_str v ≢ fault
  pub to_int_returns : (v : Value) → P.to_int v ≢ fault
  pub big2ulong_returns : (v : Value) → P.big2ulong v ≢ fault
  pub ary_join_returns : (vs : Values) (sep : Bytes) → P.ary_join vs sep ≢ fault

-- A value is no object, or an object that is allocated.
abbrev pub Allocated : Heap → Value → Type 0
Allocated h (object b) = h b ≢ none
Allocated h _ = Unit

-- The session that an scp's holder keeps is allocated.
abbrev pub Kept : Heap → Holder → Type 0
Kept h (scp p v) = Allocated h v
Kept h _ = Unit

-- The holder of an scp that keeps a session has an scp that is not NULL.
abbrev pub Opened : Option Holder → Type 0
Opened (some (scp none (object b))) = ⊥
Opened _ = Unit
