-- ===== src/Threads/Channels.antt =====
-- The functions of ext/libssh_ruby/channel.c that release Ruby's lock, up to their `nogvl` function
-- and on from it.
use libssh_ruby.Base.{
  pos, negsuc, ◌==ℤ◌, codes, List, Option, length, take, ◌%◌, ◌^◌, if◌then◌else◌,
}
use libssh_ruby.Value.{Value, nil, fixnum, arg_error}
use libssh_ruby.Libssh.{
  Platform, ssh_channel_get_session, ssh_is_connected, ssh_channel_open_session,
  ssh_channel_open_forward, ssh_channel_close, ssh_channel_request_pty, ssh_channel_send_eof,
  ssh_channel_request_exec, ssh_channel_write, ssh_channel_poll_timeout, ssh_channel_read_timeout,
  ssh_channel_read_nonblocking, ssh_channel_get_exit_status, ssh_channel_select,
}
use libssh_ruby.Runtime.{Action, pure, raise, lift, ◌>>=◌, ◌>>◌, libssh}
use libssh_ruby.Runtime.Api.{
  Keywords, check_string, string_value_cstr, scan_args, get_kwargs, check_fixnum, fix2int, fix2uint,
  alloc_n, xfree, utf8_str_new, yield_ensure,
}
use libssh_ruby.Runtime.Objects.{get_channel, load_channel}
use libssh_ruby.Channel.{raise_if_error}
use libssh_ruby.Channel.Stream.{stderr_flag, timeout_of, table, data_or_eof}
use libssh_ruby.Channel.Select.{set_select_channels, free_array, select_timeout}
use libssh_ruby.Threads.{Suspended}

module _ (P : Platform) where
  unfoldable pub enter_close : Value → Action P.State (Suspended P)
  unfolding ◌>>=◌ get_channel load_channel raise_if_error
  enter_close self = do
    holder ← get_channel self
    (c, _) ← load_channel holder
    pure (ssh_channel_close c, λ rc. raise_if_error P holder rc >> pure nil)

  -- The first argument closes the channel behind the block.
  unfoldable pub enter_open_session :
      Action P.State Value → Option (Action P.State Value) → Value → Action P.State (Suspended P)
  unfolding ◌>>=◌ libssh get_channel load_channel raise_if_error yield_ensure
  enter_open_session closing block self = do
    holder ← get_channel self
    (c, _) ← load_channel holder
    s ← libssh P (ssh_channel_get_session c)
    connected ← libssh P (ssh_is_connected s)
    if connected ==ℤ pos 0 then raise arg_error else pure tt
    (c', _) ← load_channel holder
    pure (
      ssh_channel_open_session c',
      λ rc. raise_if_error P holder rc >> yield_ensure block closing,
    )

  unfoldable pub enter_open_forward :
      Action P.State Value
      → Option (Action P.State Value)
      → Value
      → Value
      → Value
      → Action P.State (Suspended P)
  unfolding ◌>>=◌ get_channel load_channel raise_if_error yield_ensure check_fixnum fix2int
      string_value_cstr
  enter_open_forward closing block self remote_host remote_port = do
    holder ← get_channel self
    host ← lift (string_value_cstr P remote_host)
    lift (check_fixnum remote_port)
    port ← lift (fix2int P remote_port)
    (c, _) ← load_channel holder
    pure (
      ssh_channel_open_forward c host port (codes "localhost") (pos 22),
      λ rc. raise_if_error P holder rc >> yield_ensure block closing,
    )

  unfoldable pub enter_request_exec : Value → Value → Action P.State (Suspended P)
  unfolding ◌>>=◌ get_channel load_channel raise_if_error string_value_cstr
  enter_request_exec self cmd = do
    holder ← get_channel self
    (c, _) ← load_channel holder
    text ← lift (string_value_cstr P cmd)
    pure (ssh_channel_request_exec c text, λ rc. raise_if_error P holder rc >> pure nil)

  unfoldable pub enter_request_pty : Value → Action P.State (Suspended P)
  unfolding ◌>>=◌ get_channel load_channel raise_if_error
  enter_request_pty self = do
    holder ← get_channel self
    (c, _) ← load_channel holder
    pure (ssh_channel_request_pty c, λ rc. raise_if_error P holder rc >> pure nil)

  unfoldable pub enter_read : List Value → Keywords → Value → Action P.State (Suspended P)
  unfolding ◌>>=◌ get_channel load_channel scan_args get_kwargs check_fixnum fix2int fix2uint
      alloc_n xfree utf8_str_new
  enter_read argv opts self = do
    holder ← get_channel self
    arg ← lift (scan_args 1 0 argv)
    lift (check_fixnum (arg 0))
    kwval ← lift (get_kwargs table opts)
    let is_stderr = stderr_flag (kwval "stderr")
    timeout ← lift (timeout_of P (kwval "timeout"))
    (c, _) ← load_channel holder
    count ← lift (fix2uint (arg 0))
    alloc_n (P.can_alloc count)
    pure (
      ssh_channel_read_timeout c count is_stderr timeout,
      λ (rc, buf). lift (utf8_str_new count buf rc) >>= λ ret. xfree >> pure ret,
    )

  unfoldable pub enter_read_nonblocking : List Value → Value → Action P.State (Suspended P)
  unfolding ◌>>=◌ get_channel load_channel scan_args check_fixnum fix2uint alloc_n xfree
      utf8_str_new
  enter_read_nonblocking argv self = do
    holder ← get_channel self
    (c, _) ← load_channel holder
    arg ← lift (scan_args 1 1 argv)
    lift (check_fixnum (arg 0))
    count ← lift (fix2uint (arg 0))
    let is_stderr = stderr_flag (arg 1)
    alloc_n (P.can_alloc count)
    pure (
      ssh_channel_read_nonblocking c count is_stderr,
      λ (rc, buf). lift (data_or_eof P count buf rc) >>= λ ret. xfree >> pure ret,
    )

  unfoldable pub enter_poll : List Value → Keywords → Value → Action P.State (Suspended P)
  unfolding ◌>>=◌ get_channel load_channel scan_args get_kwargs check_fixnum fix2int raise_if_error
  enter_poll argv opts self = do
    holder ← get_channel self
    arg ← lift (scan_args 0 0 argv)
    kwval ← lift (get_kwargs table opts)
    let is_stderr = stderr_flag (kwval "stderr")
    timeout ← lift (timeout_of P (kwval "timeout"))
    (c, _) ← load_channel holder
    pure (
      ssh_channel_poll_timeout c timeout is_stderr,
      λ rc. raise_if_error P holder rc >> pure (if rc ==ℤ P.ssh_eof then nil else fixnum rc),
    )

  unfoldable pub enter_get_exit_status : Value → Action P.State (Suspended P)
  unfolding ◌>>=◌ get_channel load_channel
  enter_get_exit_status self = do
    holder ← get_channel self
    (c, _) ← load_channel holder
    pure (ssh_channel_get_exit_status c, λ rc. pure (if rc ==ℤ negsuc 0 then nil else fixnum rc))

  unfoldable pub enter_write : Value → Value → Action P.State (Suspended P)
  unfolding ◌>>=◌ get_channel load_channel check_string raise_if_error
  enter_write self text = do
    bytes ← lift (check_string text)
    holder ← get_channel self
    (c, _) ← load_channel holder
    pure (
      ssh_channel_write c (take (length bytes % 2 ^ 32) bytes),
      λ rc. raise_if_error P holder rc >> pure (fixnum rc),
    )

  unfoldable pub enter_send_eof : Value → Action P.State (Suspended P)
  unfolding ◌>>=◌ get_channel load_channel raise_if_error
  enter_send_eof self = do
    holder ← get_channel self
    (c, _) ← load_channel holder
    pure (ssh_channel_send_eof c, λ rc. raise_if_error P holder rc >> pure nil)

  unfoldable pub enter_select : Value → Value → Value → Value → Action P.State (Suspended P)
  unfolding ◌>>=◌ set_select_channels check_fixnum fix2int xfree
  enter_select read_channels write_channels except_channels timeout = do
    sec ← lift (select_timeout P timeout)
    read ← set_select_channels P read_channels
    write ← set_select_channels P write_channels
    except ← set_select_channels P except_channels
    pure (
      ssh_channel_select read write except sec,
      λ rc. free_array P read >> (free_array P write >> (free_array P except >> pure nil)),
    )
