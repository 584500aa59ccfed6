-- ===== src/Channel/Stream/Buffers.antt =====
-- What reads of a channel return, and what becomes of their buffers.
use libssh_ruby.Base.{
  ℕ, suc, ℤ, pos, negsuc, ◌==ℤ◌, ◌≡◌, ◌≤◌, Bytes, [], ◌∷◌, String, take, some, true, arith,
  if◌then◌else◌,
}
use libssh_ruby.Value.{Value, nil, fixnum, string, object, arg_error, Result, ok, raised}
use libssh_ruby.Libssh.{
  Handle, Platform, ssh_channel_read_timeout, ssh_channel_read_nonblocking,
  ssh_channel_poll_timeout,
}
use libssh_ruby.Runtime.{World, channel}
use libssh_ruby.Runtime.Api.{Keywords, get_kwargs, fix2uint}
use libssh_ruby.Runtime.Trace.{reply, after}
use libssh_ruby.Error.Outcome.{channel_outcome}
use libssh_ruby.Channel.Stream.{m_read, m_read_nonblocking, m_poll, stderr_flag, timeout_of, table}

-- libssh returns no more bytes than the buffer holds.
abbrev pub Fits : ℕ → ℤ × Bytes → Type 0
Fits count (pos k, buf) = k ≤ count
Fits count (negsuc k, buf) = Unit {0}

module _ {S : Type 0} where
  -- What becomes of a read that gave a code and the buffer's contents, and left `w`, in which the
  -- buffer is not counted: a string of the bytes that were read; or, for a code below zero, an
  -- ArgumentError, with the buffer never freed.
  abbrev pub read_result : ℤ × Bytes → World S → Result Value × World S
  read_result (pos k, buf) w = (ok (string (take k buf)), w)
  read_result (negsuc k, buf) w = (raised arg_error, record w { buffers = suc w.buffers })

module _ (P : Platform) (a : ℕ) (c : Handle) (v : Value) (w : World P.State)
    (here : w.heap a ≡ some (channel c v)) where
  module _ (i : ℤ) (count : ℕ) (converted : fix2uint (fixnum i) ≡ ok count)
      (space : P.can_alloc count ≡ true) where
    -- `read` of a count that `FIX2UINT` accepts, a negative one modulo 2 ^ 32, with keywords that
    -- are accepted, returns the bytes that libssh read, as many as its code says, and frees its
    -- buffer. Where the code is below zero, as SSH_ERROR is, it raises an ArgumentError in place of
    -- the error of libssh, and its buffer is never freed.
    pub read_lem :
        (opts : Keywords) (kw : String → Value) (timeout : ℤ)
        → get_kwargs table opts ≡ ok kw
        → timeout_of P (kw "timeout") ≡ ok timeout
        → Fits count
            (reply P (ssh_channel_read_timeout c count (stderr_flag (kw "stderr")) timeout) w)
        → let call = ssh_channel_read_timeout c count (stderr_flag (kw "stderr")) timeout in
          m_read P (fixnum i ∷ []) opts (object a) w ≡ read_result (reply P call w) (after P call w)
    unfolding m_read
    read_lem opts kw timeout known timed fits = ground arith

    -- `read_nonblocking` of a count that `FIX2UINT` accepts, a negative one modulo 2 ^ 32, returns
    -- nil on SSH_EOF, and for a code of zero or more the bytes that libssh read; it frees its
    -- buffer in these cases. For any other code, as SSH_ERROR, it raises an ArgumentError, and its
    -- buffer is never freed.
    pub read_nonblocking_lem :
        (err : Value)
        → Fits count (reply P (ssh_channel_read_nonblocking c count (stderr_flag err)) w)
        → let call = ssh_channel_read_nonblocking c count (stderr_flag err) in
          m_read_nonblocking P (fixnum i ∷ err ∷ []) (object a) w ≡ (
            if (reply P call w).0 ==ℤ P.ssh_eof
            then (ok nil, after P call w)
            else read_result (reply P call w) (after P call w))
    unfolding m_read_nonblocking
    read_nonblocking_lem err fits = ground arith

  -- `poll` with keywords that are accepted raises the error of the channel's session on
  -- SSH_ERROR, returns nil on SSH_EOF, and any other code as it is: 0 where it timed out.
  pub poll_lem :
      (opts : Keywords) (kw : String → Value) (timeout : ℤ)
      → get_kwargs table opts ≡ ok kw
      → timeout_of P (kw "timeout") ≡ ok timeout
      → let call = ssh_channel_poll_timeout c timeout (stderr_flag (kw "stderr")) in
        m_poll P [] opts (object a) w
        ≡ channel_outcome P c
            (reply P call w)
            (if reply P call w ==ℤ P.ssh_eof then nil else fixnum (reply P call w))
            (after P call w)
  unfolding m_poll
  poll_lem opts kw timeout known timed = ground arith
