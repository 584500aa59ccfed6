-- ===== src/Gc/Writes.antt =====
-- Which holders the creating functions write, and when they write none.
use libssh_ruby.Base.{
  ℕ, ◌≡◌, ◌≢◌, Bool, true, false, ◌&&◌, ◌==◌, ==_iff, Bool-cases, inl, inr, Option, none, some,
  Bytes, arith,
}
use libssh_ruby.Value.{Value, object}
use libssh_ruby.Libssh.{
  Handle, Platform, ScpMode, ssh_new, ssh_key_new, ssh_channel_new, ssh_scp_new,
}
use libssh_ruby.Runtime.{Holder, session, channel, scp, key, Heap, World, update}
use libssh_ruby.Runtime.Trace.{reply, after}
use libssh_ruby.Key
use libssh_ruby.Key.{key_alloc}
use libssh_ruby.Session
use libssh_ruby.Session.{session_alloc}
use libssh_ruby.Channel
use libssh_ruby.Channel.{channel_alloc}
use libssh_ruby.Scp.{new_scp}
use libssh_ruby.Session.Connection.{m_get_publickey}
use libssh_ruby.Gc.Closed.{is_session, Grows}

abbrev pub is_channel : Option Holder → Bool
is_channel (some (channel c v)) = true
is_channel _ = false

abbrev pub is_scp : Option Holder → Bool
is_scp (some (scp p v)) = true
is_scp _ = false

abbrev pub is_key : Option Holder → Bool
is_key (some (key k)) = true
is_key _ = false

abbrev pub session_handle : Option Holder → Handle
session_handle (some (session s)) = s
session_handle _ = none

pub store-Grows :
    (h : Heap) (a : ℕ) (x : Holder) → is_session (h a) ≡ false → Grows h (update h a (some x))
store-Grows h a x no_session e s = elim (Bool-cases (a == e)) [
  | inl same ↦ ground (arith, (==_iff a e).0 same)
  | inr other ↦ rw other s
]

-- Whether a value is an object of a class.
abbrev pub object_is : (Option Holder → Bool) → Heap → Value → Bool
object_is test h (object a) = test (h a)
object_is test h _ = false

pub and_parts : (a b : Bool) → (a && b) ≡ true → (a ≡ true) × (b ≡ true)
and_parts a b h = (ground arith, ground arith)

pub of_is_channel : (x : Option Holder) → is_channel x ≡ true → (x ≢ none) × (is_session x ≡ false)
of_is_channel x t = (ground arith, ground arith)

pub of_is_key : (x : Option Holder) → is_key x ≡ true → (x ≢ none) × (is_session x ≡ false)
of_is_key x t = (ground arith, ground arith)

pub of_is_scp : (x : Option Holder) → is_scp x ≡ true → (x ≢ none) × (is_session x ≡ false)
of_is_scp x t = (ground arith, ground arith)

module _ (P : Platform) where
  pub channel_written :
      (a b : ℕ) (w : World P.State)
      → is_channel (w.heap a) ≡ true
      → is_session (w.heap b) ≡ true
      → (Channel.m_initialize P (object a) (object b) w).1 ≡ (
          let c = ssh_channel_new (session_handle (w.heap b)) in
          record (after P c w) { heap = update w.heap a (some (channel (reply P c w) (object b))) })
  unfolding Channel.m_initialize
  channel_written a b w ca sb = ground arith

  pub channel_unchanged :
      (self v : Value) (w : World P.State)
      → (object_is is_channel w.heap self && object_is is_session w.heap v) ≡ false
      → (Channel.m_initialize P self v w).1 ≡ w
  unfolding Channel.m_initialize
  channel_unchanged self v w unmet = ground arith

module _ (P : Platform) (mode : ScpMode) (path : Bytes) where
  pub scp_written :
      (a b : ℕ) (w : World P.State)
      → is_scp (w.heap a) ≡ true
      → is_session (w.heap b) ≡ true
      → (new_scp P (object a) (object b) mode path w).1 ≡ (
          let c = ssh_scp_new (session_handle (w.heap b)) mode path in
          record (after P c w) { heap = update w.heap a (some (scp (reply P c w) (object b))) })
  unfolding new_scp
  scp_written a b w ca sb = ground arith

  pub scp_unchanged :
      (self v : Value) (w : World P.State)
      → (object_is is_scp w.heap self && object_is is_session w.heap v) ≡ false
      → (new_scp P self v mode path w).1 ≡ w
  unfolding new_scp
  scp_unchanged self v w unmet = ground arith

module _ (P : Platform) where
  pub session_written :
      (self : Value) (w : World P.State) (a : ℕ)
      → is_session (w.heap a) ≡ true
      → (Session.m_initialize P (object a) w).1
        ≡ record (after P ssh_new w) { heap = update w.heap a (some (session (reply P ssh_new w))) }
  unfolding Session.m_initialize
  session_written self w a t = ground arith

  pub session_unchanged :
      (self : Value) (w : World P.State)
      → object_is is_session w.heap self ≡ false
      → (Session.m_initialize P self w).1 ≡ w
  unfolding Session.m_initialize
  session_unchanged self w unmet = ground arith

  pub key_written :
      (self : Value) (w : World P.State) (a : ℕ)
      → is_key (w.heap a) ≡ true
      → (Key.m_initialize P (object a) w).1 ≡ record (after P ssh_key_new w) {
        heap = update w.heap a (some (key (reply P ssh_key_new w)));
      }
  unfolding Key.m_initialize
  key_written self w a t = ground arith

  pub key_unchanged :
      (self : Value) (w : World P.State)
      → object_is is_key w.heap self ≡ false
      → (Key.m_initialize P self w).1 ≡ w
  unfolding Key.m_initialize
  key_unchanged self w unmet = ground arith

  pub publickey_unchanged :
      (self : Value) (w : World P.State)
      → object_is is_session w.heap self ≡ false
      → (m_get_publickey P self w).1 ≡ w
  unfolding m_get_publickey
  publickey_unchanged self w unmet = ground arith

pub session_some : (x : Option Holder) → is_session x ≡ true → x ≡ some (session (session_handle x))
session_some x t = ground arith

pub session-Grows : (h : Heap) (a : ℕ) (s : Handle) → Grows h (update h a (some (session s)))
session-Grows h a s e t = ground arith
