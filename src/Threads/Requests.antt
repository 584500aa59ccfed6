-- ===== src/Threads/Requests.antt =====
-- The methods that wait for libssh and test its code, and what they are to do among other threads.
use libssh_ruby.Base.{
  ℕ, ℤ, ◌==ℤ◌, fits_signed, to_unsigned, ◌≡◌, Bool, true, false, Bytes, contains, length, take, ◌%◌,
  ◌^◌, [], ◌∷◌, Option, none, some, if◌then◌else◌,
}
use libssh_ruby.Value.{Value, nil, fixnum, string, object, of_bool, Result, ok, raised, fault}
use libssh_ruby.Libssh.{
  Handle, Platform, ssh_channel_close, ssh_channel_request_pty, ssh_channel_send_eof,
  ssh_channel_request_exec, ssh_channel_write, ssh_channel_poll_timeout, ssh_connect,
  ssh_userauth_publickey_auto, ssh_scp_close, ssh_scp_push_file64, ssh_scp_write,
  ssh_scp_deny_request, ssh_scp_pull_request, ssh_scp_accept_request,
}
use libssh_ruby.Runtime.{Holder, Heap, World, Action, session, channel, scp, pure, ◌>>=◌, ◌>>◌}
use libssh_ruby.Runtime.Trace.{reply, after}
use libssh_ruby.Error.Outcome.{outcome, channel_outcome}
use libssh_ruby.Session
use libssh_ruby.Channel
use libssh_ruby.Scp
use libssh_ruby.Methods.{
  SessionMethod, ChannelMethod, ScpMethod, Method, of_session, of_channel, of_scp,
}
use libssh_ruby.Gc.Writes.{is_channel, is_scp, session_handle}
use libssh_ruby.Gc.Closed.{is_session}

-- The methods that test the code of libssh once they have waited, with accepted arguments.
pub data Request : Type 0 where
  connect publickey_auto : Request
  close request_pty send_eof : Request
  request_exec write : Bytes → Request
  poll : ℤ → Bool → Request
  scp_close pull_request accept_request : Request
  push_file : Bytes → ℤ → ℤ → Request
  scp_write deny_request : Bytes → Request

-- The call of a method that makes a request.
abbrev pub method_of : {S : Type 0} → Request → Method S
method_of connect = of_session SessionMethod.connect
method_of publickey_auto = of_session SessionMethod.userauth_publickey_auto
method_of close = of_channel ChannelMethod.close
method_of request_pty = of_channel ChannelMethod.request_pty
method_of send_eof = of_channel ChannelMethod.send_eof
method_of (request_exec text) = of_channel (ChannelMethod.request_exec (string text))
method_of (write bytes) = of_channel (ChannelMethod.write (string bytes))
method_of (poll timeout is_stderr) =
    of_channel
      (ChannelMethod.poll [] (("stderr", of_bool is_stderr) ∷ ("timeout", fixnum timeout) ∷ []))
method_of scp_close = of_scp ScpMethod.close
method_of pull_request = of_scp ScpMethod.pull_request
method_of accept_request = of_scp ScpMethod.accept_request
method_of (push_file name size mode) =
    of_scp (ScpMethod.push_file (string name) (fixnum size) (fixnum mode))
method_of (scp_write bytes) = of_scp (ScpMethod.write (string bytes))
method_of (deny_request reason) = of_scp (ScpMethod.deny_request (string reason))

abbrev pub IsAccepted : Request → Type 0
IsAccepted (request_exec text) = contains text 0 ≡ false
IsAccepted (poll timeout is_stderr) = fits_signed 31 timeout ≡ true
IsAccepted (push_file name size mode) = (contains name 0 ≡ false) × (fits_signed 31 mode ≡ true)
IsAccepted (deny_request reason) = contains reason 0 ≡ false
IsAccepted _ = Unit

pub data Kind : Type 0 where
  session_kind channel_kind scp_kind : Kind

abbrev pub kind_of : Request → Kind
kind_of connect = session_kind
kind_of publickey_auto = session_kind
kind_of scp_close = scp_kind
kind_of pull_request = scp_kind
kind_of accept_request = scp_kind
kind_of (push_file name size mode) = scp_kind
kind_of (scp_write bytes) = scp_kind
kind_of (deny_request reason) = scp_kind
kind_of _ = channel_kind

abbrev pub is_kind : Kind → Option Holder → Bool
is_kind session_kind = is_session
is_kind channel_kind = is_channel
is_kind scp_kind = is_scp

-- The structure of libssh that a holder has.
abbrev pub handle : Option Holder → Handle
handle (some (session s)) = s
handle (some (channel c v)) = c
handle (some (scp p v)) = p
handle _ = none

-- The session that the holder of an scp keeps.
abbrev pub kept_session : Heap → Option Holder → Option Holder
kept_session h (some (scp p (object b))) = h b
kept_session h _ = none

-- The object is what it was, an scp with a session that is allocated.
abbrev pub still : Kind → Heap → ℕ → Bool
still session_kind h a = is_session (h a)
still channel_kind h a = is_channel (h a)
still scp_kind h a = is_session (kept_session h (h a))

module _ (P : Platform) where
  -- The one call of libssh for a request on a structure: its code, and the state it leaves.
  abbrev pub asked : Handle → Request → World P.State → ℤ × World P.State
  asked c connect w = (reply P (ssh_connect c) w, after P (ssh_connect c) w)
  asked c publickey_auto w =
      (reply P (ssh_userauth_publickey_auto c) w, after P (ssh_userauth_publickey_auto c) w)
  asked c close w = (reply P (ssh_channel_close c) w, after P (ssh_channel_close c) w)
  asked c request_pty w =
      (reply P (ssh_channel_request_pty c) w, after P (ssh_channel_request_pty c) w)
  asked c send_eof w = (reply P (ssh_channel_send_eof c) w, after P (ssh_channel_send_eof c) w)
  asked c (request_exec text) w =
      (reply P (ssh_channel_request_exec c text) w, after P (ssh_channel_request_exec c text) w)
  asked c (write bytes) w =
      let call = ssh_channel_write c (take (length bytes % 2 ^ 32) bytes) in
      (reply P call w, after P call w)
  asked c (poll timeout is_stderr) w =
      let call = ssh_channel_poll_timeout c timeout is_stderr in (reply P call w, after P call w)
  asked c scp_close w = (reply P (ssh_scp_close c) w, after P (ssh_scp_close c) w)
  asked c pull_request w = (reply P (ssh_scp_pull_request c) w, after P (ssh_scp_pull_request c) w)
  asked c accept_request w =
      (reply P (ssh_scp_accept_request c) w, after P (ssh_scp_accept_request c) w)
  asked c (push_file name size mode) w =
      let call = ssh_scp_push_file64 c name (to_unsigned 64 size) mode in
      (reply P call w, after P call w)
  asked c (scp_write bytes) w =
      (reply P (ssh_scp_write c bytes) w, after P (ssh_scp_write c bytes) w)
  asked c (deny_request reason) w =
      (reply P (ssh_scp_deny_request c reason) w, after P (ssh_scp_deny_request c reason) w)

  -- What a request gives for a code that is no error.
  abbrev pub returned : Request → ℤ → Value
  returned publickey_auto rc = fixnum rc
  returned (write bytes) rc = fixnum rc
  returned (poll timeout is_stderr) rc = if rc ==ℤ P.ssh_eof then nil else fixnum rc
  returned pull_request rc = fixnum rc
  returned q rc = nil

  -- An error is asked for in the state at the end, by what the holder has then.
  abbrev pub reported : Kind → ℕ → ℤ → Value → World P.State → Result Value × World P.State
  reported session_kind a rc v w = outcome P (session_handle (w.heap a)) rc v w
  reported channel_kind a rc v w = channel_outcome P (handle (w.heap a)) rc v w
  reported scp_kind a rc v w = outcome P (session_handle (kept_session w.heap (w.heap a))) rc v w

  -- An interrupt raises, and nothing more is done.
  abbrev pub unless_interrupted :
      Result (Unit {0}) × World P.State
      → (World P.State → Result Value × World P.State)
      → Result Value × World P.State
  unless_interrupted (ok tt, w) go_on = go_on w
  unless_interrupted (raised e, w) go_on = (raised e, w)
  unless_interrupted (fault, w) go_on = (fault, w)

  -- With the lock again: the macro `RAISE_IF_ERROR` reads the holder once more.
  unfoldable pub leave : Kind → ℕ → ℤ → Value → Action P.State Value
  unfolding ◌>>=◌ Session.raise_if_error Channel.raise_if_error Scp.raise_if_error
  leave session_kind a rc v = Session.raise_if_error P a rc >> pure v
  leave channel_kind a rc v = Channel.raise_if_error P a rc >> pure v
  leave scp_kind a rc v = Scp.raise_if_error P a rc >> pure v
