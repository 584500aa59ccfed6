-- ===== src/Sound/Channels.antt =====
-- The methods of a channel that take no block.
use libssh_ruby.Base.{ℕ, ℤ, ◌≡◌, ◌≢◌, refl, List, Option, none, some, arith}
use libssh_ruby.Value.{Value, object, fault}
use libssh_ruby.Libssh.{
  Platform, Handle, ssh_channel_read_timeout, ssh_channel_read_nonblocking,
  ssh_channel_poll_timeout,
}
use libssh_ruby.Runtime.{World, Action, Heap, Holder, continue, channel, ◌>>=◌}
use libssh_ruby.Runtime.Api.{Keywords, scan_args, get_kwargs, fix2uint}
use libssh_ruby.Runtime.Objects.{get_channel, load_channel, channel_at}
use libssh_ruby.Runtime.Trace.{reply, after}
use libssh_ruby.Channel.{
  m_initialize, m_eof_p, m_closed_p, m_open_p, m_get_exit_status, raise_if_error,
}
use libssh_ruby.Channel.Requests.{m_close, m_request_pty, m_send_eof, m_request_exec}
use libssh_ruby.Channel.Stream.{
  m_read, m_read_nonblocking, m_poll, m_write, timeout_of, stderr_flag, table,
}
use libssh_ruby.Methods.{ChannelMethod, run_channel}
use libssh_ruby.Sound.{Honest, Allocated}
use libssh_ruby.Sound.Conversions.{
  continue_sound, fixnum_sound, scan_args_returns, kwargs_returns, timeout_returns,
  fix2uint_returns, utf8_returns,
}

-- The session that `initialize` is given is allocated, if it is an object.
abbrev pub ChannelArguments : Heap → ChannelMethod → Type 0
ChannelArguments h (ChannelMethod.initialize v) = Allocated h v
ChannelArguments h _ = Unit

got_sound :
    {S : Type 0} {a : ℕ} {w : World S} (o : Option Holder)
    → o ≢ none
    → (k : ℕ → Action S Value)
    → ((c : Handle) (v : Value) → o ≡ some (channel c v) → (k a w).0 ≢ fault)
    → (continue (channel_at a o) k w).0 ≢ fault
got_sound (some (channel c v)) here k step = step c v refl
got_sound (some _) here k step = ground arith
got_sound none here k step = absurd (here refl)

module _ (P : Platform) (honest : Honest P) (a : ℕ) (w : World P.State)
    (here : w.heap a ≢ none) where
  pub close_sound : (m_close P (object a) w).0 ≢ fault
  unfolding m_close
  close_sound = ground arith

  request_pty_sound : (m_request_pty P (object a) w).0 ≢ fault
  unfolding m_request_pty
  request_pty_sound = ground arith

  send_eof_sound : (m_send_eof P (object a) w).0 ≢ fault
  unfolding m_send_eof
  send_eof_sound = ground arith

  eof_p_sound : (m_eof_p P (object a) w).0 ≢ fault
  unfolding m_eof_p
  eof_p_sound = ground arith

  closed_p_sound : (m_closed_p P (object a) w).0 ≢ fault
  unfolding m_closed_p
  closed_p_sound = ground arith

  open_p_sound : (m_open_p P (object a) w).0 ≢ fault
  unfolding m_open_p
  open_p_sound = ground arith

  get_exit_status_sound : (m_get_exit_status P (object a) w).0 ≢ fault
  unfolding m_get_exit_status
  get_exit_status_sound = ground arith

  request_exec_sound : (v : Value) → (m_request_exec P (object a) v w).0 ≢ fault
  unfolding m_request_exec
  request_exec_sound v = ground (arith, honest.to_str_returns v)

  write_sound : (v : Value) → (m_write P (object a) v w).0 ≢ fault
  unfolding m_write
  write_sound v = ground arith

  initialize_sound : (v : Value) → Allocated w.heap v → (m_initialize P (object a) v w).0 ≢ fault
  unfolding m_initialize
  initialize_sound (object b) there = ground arith
  initialize_sound v there = ground arith

  pub get_sound :
      (k : ℕ → Action P.State Value)
      → ((c : Handle) (v : Value) → w.heap a ≡ some (channel c v) → (k a w).0 ≢ fault)
      → ((get_channel (object a) >>= k) w).0 ≢ fault
  unfolding ◌>>=◌ get_channel
  get_sound k step = got_sound (w.heap a) here k step

  pub load_sound :
      (k : Handle × Value → Action P.State Value) (c : Handle) (v : Value)
      → w.heap a ≡ some (channel c v)
      → (k (c, v) w).0 ≢ fault
      → ((load_channel a >>= k) w).0 ≢ fault
  unfolding ◌>>=◌ load_channel
  load_sound k c v held step = rw held step

  read_sound : (argv : List Value) (opts : Keywords) → (m_read P argv opts (object a) w).0 ≢ fault
  unfolding m_read
  read_sound argv opts = get_sound _ λ c v held.
      continue_sound (scan_args 1 0 argv) _ w (scan_args_returns 1 0 argv) λ arg.
        fixnum_sound (arg 0) _ w λ i is_fixnum.
          continue_sound (get_kwargs table opts) _ w (kwargs_returns table opts) λ kwval.
            continue_sound (timeout_of P (kwval "timeout")) _ w
              (timeout_returns P honest (kwval "timeout"))
              λ timeout. load_sound _ c v held (
                continue_sound (fix2uint (arg 0)) _ w (fix2uint_returns (arg 0) i is_fixnum)
                  λ count.
                    let request =
                      ssh_channel_read_timeout c count (stderr_flag (kwval "stderr")) timeout in
                    ground (
                      arith,
                      utf8_returns count (reply P request w)
                          (honest.read_fits c count (stderr_flag (kwval "stderr")) timeout w.ssh),
                    ))

  read_nonblocking_sound : (argv : List Value) → (m_read_nonblocking P argv (object a) w).0 ≢ fault
  unfolding m_read_nonblocking
  read_nonblocking_sound argv = get_sound _ λ c v held. load_sound _ c v held (
      continue_sound (scan_args 1 1 argv) _ w (scan_args_returns 1 1 argv) λ arg.
        fixnum_sound (arg 0) _ w λ i is_fixnum.
          continue_sound (fix2uint (arg 0)) _ w (fix2uint_returns (arg 0) i is_fixnum) λ count.
            let request = ssh_channel_read_nonblocking c count (stderr_flag (arg 1)) in
            ground (
              arith,
              utf8_returns count (reply P request w)
                  (honest.nonblocking_fits c count (stderr_flag (arg 1)) w.ssh),
            ))

  pub raise_sound :
      (c : Handle) (v : Value) (w' : World P.State) (rc : ℤ)
      → w'.heap a ≡ some (channel c v)
      → (raise_if_error P a rc w').0 ≢ fault
  unfolding raise_if_error
  raise_sound c v w' rc held = ground arith

  poll_sound : (argv : List Value) (opts : Keywords) → (m_poll P argv opts (object a) w).0 ≢ fault
  unfolding m_poll
  poll_sound argv opts = get_sound _ λ c v held.
      continue_sound (scan_args 0 0 argv) _ w (scan_args_returns 0 0 argv) λ arg.
        continue_sound (get_kwargs table opts) _ w (kwargs_returns table opts) λ kwval.
          continue_sound (timeout_of P (kwval "timeout")) _ w
            (timeout_returns P honest (kwval "timeout"))
            λ timeout. load_sound _ c v held (
              let request = ssh_channel_poll_timeout c timeout (stderr_flag (kwval "stderr")) in
              ground (arith, raise_sound c v (after P request w) (reply P request w) held))

  pub run_channel_sound :
      (m : ChannelMethod) → ChannelArguments w.heap m → (run_channel P m (object a) w).0 ≢ fault
  unfolding run_channel
  run_channel_sound ChannelMethod.eof_p given = eof_p_sound
  run_channel_sound ChannelMethod.closed_p given = closed_p_sound
  run_channel_sound ChannelMethod.open_p given = open_p_sound
  run_channel_sound ChannelMethod.get_exit_status given = get_exit_status_sound
  run_channel_sound ChannelMethod.close given = close_sound
  run_channel_sound ChannelMethod.request_pty given = request_pty_sound
  run_channel_sound ChannelMethod.send_eof given = send_eof_sound
  run_channel_sound (ChannelMethod.initialize v) given = initialize_sound v given
  run_channel_sound (ChannelMethod.request_exec v) given = request_exec_sound v
  run_channel_sound (ChannelMethod.write v) given = write_sound v
  run_channel_sound (ChannelMethod.read argv opts) given = read_sound argv opts
  run_channel_sound (ChannelMethod.poll argv opts) given = poll_sound argv opts
  run_channel_sound (ChannelMethod.read_nonblocking argv) given = read_nonblocking_sound argv
