-- ===== src/Channel/Guarded.antt =====
-- The methods of a channel that call libssh once and raise on SSH_ERROR.
use libssh_ruby.Base.{ℕ, ◌≡◌, Bytes, length, take, ◌%◌, ◌^◌, some, contains, false, arith}
use libssh_ruby.Value.{Value, nil, object, fixnum, string}
use libssh_ruby.Libssh.{
  Handle, Platform, ssh_channel_close, ssh_channel_request_exec, ssh_channel_request_pty,
  ssh_channel_send_eof, ssh_channel_write,
}
use libssh_ruby.Runtime.{World, channel}
use libssh_ruby.Runtime.Trace.{reply, after}
use libssh_ruby.Error.Outcome.{channel_outcome}
use libssh_ruby.Channel.Requests.{m_close, m_request_exec, m_request_pty, m_send_eof}
use libssh_ruby.Channel.Stream.{m_write}

module _ (P : Platform) (a : ℕ) (c : Handle) (v : Value) (w : World P.State)
    (here : w.heap a ≡ some (channel c v)) where
  pub close_lem :
      m_close P (object a) w
      ≡ channel_outcome P c (reply P (ssh_channel_close c) w) nil (after P (ssh_channel_close c) w)
  unfolding m_close
  close_lem = ground arith

  -- Closing a channel, asking for a terminal, sending the end of file, running a command with no
  -- NUL byte in it and writing any string call libssh once on the holder's channel; a write hands
  -- it the first bytes of the string, as many as its length modulo 2 ^ 32. On SSH_ERROR
  -- the method raises the error that libssh reports for the session of that channel. On any other
  -- code writing returns the code, and the others return nil.
  pub guarded_requests :
      (text bytes : Bytes)
      → contains text 0 ≡ false
      → (m_close P (object a) w
          ≡ channel_outcome P c
              (reply P (ssh_channel_close c) w)
              nil
              (after P (ssh_channel_close c) w))
        × (m_request_pty P (object a) w
            ≡ channel_outcome P c
                (reply P (ssh_channel_request_pty c) w)
                nil
                (after P (ssh_channel_request_pty c) w))
        × (m_send_eof P (object a) w
            ≡ channel_outcome P c
                (reply P (ssh_channel_send_eof c) w)
                nil
                (after P (ssh_channel_send_eof c) w))
        × (m_request_exec P (object a) (string text) w
            ≡ channel_outcome P c
                (reply P (ssh_channel_request_exec c text) w)
                nil
                (after P (ssh_channel_request_exec c text) w))
        × (m_write P (object a) (string bytes) w ≡ (
            let call = ssh_channel_write c (take (length bytes % 2 ^ 32) bytes) in
            channel_outcome P c (reply P call w) (fixnum (reply P call w)) (after P call w)))
  unfolding m_close m_request_pty m_send_eof m_request_exec m_write
  guarded_requests text bytes clean =
      (ground arith, ground arith, ground arith, ground arith, ground arith)
