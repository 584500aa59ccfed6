-- ===== src/Channel/Stream.antt =====
-- Reading, polling and writing in ext/libssh_ruby/channel.c.
pub mod Buffers
use libssh_ruby.Base.{
  ℕ, ℤ, pos, negsuc, ◌==ℤ◌, Bool, false, Bytes, String, List, [], ◌∷◌, if◌then◌else◌, length, take,
  ◌%◌, ◌^◌,
}
use libssh_ruby.Value.{Value, undef, nil, fixnum, string, rtest, Result, ok, and_then}
use libssh_ruby.Libssh.{
  Platform, ssh_channel_read_timeout, ssh_channel_read_nonblocking, ssh_channel_poll_timeout,
  ssh_channel_write,
}
use libssh_ruby.Runtime.{Action, pure, lift, ◌>>=◌, ◌>>◌, libssh}
use libssh_ruby.Runtime.Api.{
  check_fixnum, check_string, fix2int, fix2uint, utf8_str_new, scan_args, Keywords, get_kwargs,
  alloc_n, xfree,
}
use libssh_ruby.Runtime.Objects.{get_channel, load_channel}
use libssh_ruby.Channel.{raise_if_error}

-- The `stderr:` keyword, or the second argument of `read_nonblocking`.
abbrev pub stderr_flag : Value → Bool
stderr_flag undef = false
stderr_flag v = rtest v

-- The table of keywords.
abbrev pub table : List String
table = "stderr" ∷ "timeout" ∷ []

module _ (P : Platform) where
  -- The `timeout:` keyword.
  abbrev pub timeout_of : Value → Result ℤ
  timeout_of undef = ok (negsuc 0)
  timeout_of v = and_then (check_fixnum v) (λ _. fix2int P v)

  unfoldable pub m_read : List Value → Keywords → Value → Action P.State Value
  unfolding ◌>>=◌ libssh get_channel load_channel scan_args get_kwargs check_fixnum fix2int fix2uint
      alloc_n xfree utf8_str_new
  m_read argv opts self = do
    holder ← get_channel self
    arg ← lift (scan_args 1 0 argv)
    lift (check_fixnum (arg 0))
    kwval ← lift (get_kwargs table opts)
    let is_stderr = stderr_flag (kwval "stderr")
    timeout ← lift (timeout_of (kwval "timeout"))
    (c, _) ← load_channel holder
    count ← lift (fix2uint (arg 0))
    alloc_n (P.can_alloc count)
    (rc, buf) ← libssh P (ssh_channel_read_timeout c count is_stderr timeout)
    ret ← lift (utf8_str_new count buf rc)
    xfree
    pure ret

  abbrev pub data_or_eof : ℕ → Bytes → ℤ → Result Value
  data_or_eof count buf rc = if rc ==ℤ P.ssh_eof then ok nil else utf8_str_new count buf rc

  unfoldable pub m_read_nonblocking : List Value → Value → Action P.State Value
  unfolding ◌>>=◌ libssh get_channel load_channel scan_args check_fixnum fix2uint alloc_n xfree
      utf8_str_new
  m_read_nonblocking argv self = do
    holder ← get_channel self
    (c, _) ← load_channel holder
    arg ← lift (scan_args 1 1 argv)
    lift (check_fixnum (arg 0))
    count ← lift (fix2uint (arg 0))
    let is_stderr = stderr_flag (arg 1)
    alloc_n (P.can_alloc count)
    (rc, buf) ← libssh P (ssh_channel_read_nonblocking c count is_stderr)
    ret ← lift (data_or_eof count buf rc)
    xfree
    pure ret

  unfoldable pub m_poll : List Value → Keywords → Value → Action P.State Value
  unfolding ◌>>=◌ libssh get_channel load_channel scan_args get_kwargs check_fixnum fix2int
      raise_if_error
  m_poll argv opts self = do
    holder ← get_channel self
    arg ← lift (scan_args 0 0 argv)
    kwval ← lift (get_kwargs table opts)
    let is_stderr = stderr_flag (kwval "stderr")
    timeout ← lift (timeout_of (kwval "timeout"))
    (c, _) ← load_channel holder
    rc ← libssh P (ssh_channel_poll_timeout c timeout is_stderr)
    raise_if_error P holder rc
    pure (if rc ==ℤ P.ssh_eof then nil else fixnum rc)

  -- `args.len` is an `uint32_t`.
  unfoldable pub m_write : Value → Value → Action P.State Value
  unfolding ◌>>=◌ libssh get_channel load_channel check_string raise_if_error
  m_write self text = do
    bytes ← lift (check_string text)
    holder ← get_channel self
    (c, _) ← load_channel holder
    rc ← libssh P (ssh_channel_write c (take (length bytes % 2 ^ 32) bytes))
    raise_if_error P holder rc
    pure (fixnum rc)
