-- ===== src/Threads/Methods.antt =====
-- The methods of the four classes, and `Channel.select`, among other threads.
use libssh_ruby.Value.{Value}
use libssh_ruby.Libssh.{Platform}
use libssh_ruby.Runtime.{Action}
use libssh_ruby.Methods.{
  SessionMethod, ChannelMethod, ScpMethod, Method, of_session, of_channel, of_scp, open_session,
  open_forward, init, run_session, run_channel, run_scp, run,
}
use libssh_ruby.Threads.{Others, among}
use libssh_ruby.Threads.Channels.{
  enter_close, enter_open_session, enter_open_forward, enter_request_exec, enter_request_pty,
  enter_read, enter_read_nonblocking, enter_poll, enter_get_exit_status, enter_write,
  enter_send_eof, enter_select,
}
use libssh_ruby.Threads.Sessions.{enter_connect, enter_disconnect, enter_userauth_publickey_auto}
use libssh_ruby.Threads.Scps.{
  enter_scp_close, enter_init, enter_push_file, enter_scp_write, enter_pull_request,
  enter_accept_request, enter_deny_request, enter_scp_read,
}

module _ (P : Platform) (before behind : Others P) where
  -- The methods that keep the lock are one step.
  unfoldable pub session_among : SessionMethod → Value → Action P.State Value
  session_among SessionMethod.connect self = among P before behind (enter_connect P self)
  session_among SessionMethod.disconnect self = among P before behind (enter_disconnect P self)
  session_among SessionMethod.userauth_publickey_auto self =
      among P before behind (enter_userauth_publickey_auto P self)
  session_among m self = run_session P m self

  unfoldable pub channel_among : ChannelMethod → Value → Action P.State Value
  channel_among ChannelMethod.close self = among P before behind (enter_close P self)
  channel_among ChannelMethod.request_pty self = among P before behind (enter_request_pty P self)
  channel_among ChannelMethod.get_exit_status self =
      among P before behind (enter_get_exit_status P self)
  channel_among ChannelMethod.send_eof self = among P before behind (enter_send_eof P self)
  channel_among (ChannelMethod.request_exec v) self =
      among P before behind (enter_request_exec P self v)
  channel_among (ChannelMethod.write v) self = among P before behind (enter_write P self v)
  channel_among (ChannelMethod.read argv opts) self =
      among P before behind (enter_read P argv opts self)
  channel_among (ChannelMethod.poll argv opts) self =
      among P before behind (enter_poll P argv opts self)
  channel_among (ChannelMethod.read_nonblocking argv) self =
      among P before behind (enter_read_nonblocking P argv self)
  channel_among m self = run_channel P m self

  unfoldable pub scp_among : ScpMethod → Value → Action P.State Value
  scp_among ScpMethod.close self = among P before behind (enter_scp_close P self)
  scp_among (ScpMethod.push_file name size mode) self =
      among P before behind (enter_push_file P self name size mode)
  scp_among (ScpMethod.write v) self = among P before behind (enter_scp_write P self v)
  scp_among (ScpMethod.deny_request v) self = among P before behind (enter_deny_request P self v)
  scp_among (ScpMethod.read v) self = among P before behind (enter_scp_read P self v)
  scp_among ScpMethod.pull_request self = among P before behind (enter_pull_request P self)
  scp_among ScpMethod.accept_request self = among P before behind (enter_accept_request P self)
  scp_among m self = run_scp P m self

  -- A method among other threads; closing behind a block releases the lock too.
  unfoldable pub run_among : Method P.State → Value → Action P.State Value
  unfolding session_among channel_among scp_among
  run_among (of_session m) self = session_among m self
  run_among (of_channel m) self = channel_among m self
  run_among (of_scp m) self = scp_among m self
  run_among (open_session block) self =
      among P before behind
        (enter_open_session P (channel_among ChannelMethod.close self) block self)
  run_among (open_forward block host port) self =
      among P before behind
        (enter_open_forward P (channel_among ChannelMethod.close self) block self host port)
  run_among (init block) self =
      among P before behind (enter_init P (scp_among ScpMethod.close self) block self)
  run_among m self = run P m self

  unfoldable pub select_among : Value → Value → Value → Value → Action P.State Value
  select_among read write except timeout =
      among P before behind (enter_select P read write except timeout)
