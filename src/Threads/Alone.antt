-- ===== src/Threads/Alone.antt =====
-- The methods among other threads, against the methods where no other thread is at work.
use mathlib.Core.Path.{fun_ext}
use libssh_ruby.Base.{pos, ◌==ℤ◌, if◌then◌else◌, ◌≡◌, refl, Option, arith}
use libssh_ruby.Value.{Value, nil, arg_error, Result, ok, raised, fault}
use libssh_ruby.Libssh.{
  Platform, Call, Answer, ssh_channel_get_session, ssh_channel_open_session, ssh_channel_select,
  ssh_is_connected,
}
use libssh_ruby.Runtime.{World, Action, continue, pure, raise, lift, libssh, ◌>>◌, ◌>>=◌}
use libssh_ruby.Runtime.Api.{yield_ensure}
use libssh_ruby.Runtime.Objects.{get_channel, load_channel}
use libssh_ruby.Session.Connection.{m_connect, m_disconnect}
use libssh_ruby.Session.Auth.{m_userauth_publickey_auto}
use libssh_ruby.Channel
use libssh_ruby.Channel.Requests
use libssh_ruby.Channel.Stream
use libssh_ruby.Channel.Select.{s_select, select_timeout, set_select_channels, free_array}
use libssh_ruby.Scp
use libssh_ruby.Scp.Transfer
use libssh_ruby.Methods.{
  SessionMethod, ChannelMethod, ScpMethod, Method, of_session, of_channel, of_scp, of_key,
  open_session, open_forward, init, run_session, run_channel, run_scp, run,
}
use libssh_ruby.Threads.{Suspended, nobody, among}
use libssh_ruby.Threads.Methods.{session_among, channel_among, scp_among, run_among, select_among}
use libssh_ruby.Threads.Channels.{
  enter_close, enter_open_session, enter_open_forward, enter_request_exec, enter_request_pty,
  enter_read, enter_read_nonblocking, enter_poll, enter_get_exit_status, enter_write,
  enter_send_eof, enter_select,
}
use libssh_ruby.Threads.Sessions.{enter_connect, enter_disconnect, enter_userauth_publickey_auto}
use libssh_ruby.Threads.Scps.{
  enter_scp_close, enter_init, enter_push_file, enter_scp_write, enter_pull_request,
  enter_accept_request, enter_deny_request, enter_scp_read,
}

module _ (P : Platform) where
  continue_alone :
      {A : Type 0} (r : Result A) (f : A → Action P.State (Suspended P))
      (g : A → Action P.State Value) (w : World P.State)
      → ((x : A) (u : World P.State) → among P nobody nobody (f x) u ≡ g x u)
      → among P nobody nobody (continue r f) w ≡ continue r g w
  continue_alone (ok x) f g w same = same x w
  continue_alone (raised e) f g w same = unfold among in refl
  continue_alone fault f g w same = unfold among in refl

  -- What comes before the lock is released is the same with it.
  bind_alone :
      {A : Type 0} (m : Action P.State A) (f : A → Action P.State (Suspended P))
      (g : A → Action P.State Value)
      → ((x : A) (u : World P.State) → among P nobody nobody (f x) u ≡ g x u)
      → (w : World P.State) → among P nobody nobody (m >>= f) w ≡ (m >>= g) w
  unfolding ◌>>=◌ among
  bind_alone m f g same w = continue_alone (m w).0 f g (m w).1 same

  pure_alone :
      (c : Call) (resume : Answer c → Action P.State Value) (w : World P.State)
      → among P nobody nobody (pure (c, resume)) w ≡ (libssh P c >>= resume) w
  unfolding ◌>>=◌ among
  pure_alone c resume w = refl

  session_alone :
      (m : SessionMethod) (self : Value) (w : World P.State)
      → session_among P nobody nobody m self w ≡ run_session P m self w
  unfolding session_among run_session among enter_connect enter_disconnect
      enter_userauth_publickey_auto m_connect m_disconnect m_userauth_publickey_auto
  session_alone SessionMethod.connect self w = ground arith
  session_alone SessionMethod.disconnect self w = ground arith
  session_alone SessionMethod.userauth_publickey_auto self w = ground arith
  session_alone _ self w = refl

  close_alone :
      (self : Value) (w : World P.State)
      → among P nobody nobody (enter_close P self) w ≡ Requests.m_close P self w
  unfolding among enter_close Requests.m_close
  close_alone self w = ground arith

  channel_alone :
      (m : ChannelMethod) (self : Value) (w : World P.State)
      → channel_among P nobody nobody m self w ≡ run_channel P m self w
  unfolding channel_among run_channel among enter_request_exec enter_request_pty enter_read
      enter_read_nonblocking enter_poll enter_get_exit_status enter_write enter_send_eof
      Channel.m_get_exit_status Requests.m_request_exec Requests.m_request_pty Requests.m_send_eof
      Stream.m_read Stream.m_read_nonblocking Stream.m_poll Stream.m_write
  channel_alone ChannelMethod.close self w = close_alone self w
  channel_alone ChannelMethod.request_pty self w = ground arith
  channel_alone ChannelMethod.get_exit_status self w = ground arith
  channel_alone ChannelMethod.send_eof self w = ground arith
  channel_alone (ChannelMethod.request_exec v) self w = ground arith
  channel_alone (ChannelMethod.write v) self w = ground arith
  channel_alone (ChannelMethod.read argv opts) self w = ground arith
  channel_alone (ChannelMethod.poll argv opts) self w = ground arith
  channel_alone (ChannelMethod.read_nonblocking argv) self w = ground arith
  channel_alone _ self w = refl

  scp_close_alone :
      (self : Value) (w : World P.State)
      → among P nobody nobody (enter_scp_close P self) w ≡ Scp.m_close P self w
  unfolding among enter_scp_close Scp.m_close
  scp_close_alone self w = ground arith

  scp_alone :
      (m : ScpMethod) (self : Value) (w : World P.State)
      → scp_among P nobody nobody m self w ≡ run_scp P m self w
  unfolding scp_among run_scp among enter_push_file enter_scp_write enter_pull_request
      enter_accept_request enter_deny_request enter_scp_read Transfer.m_push_file Transfer.m_write
      Transfer.m_pull_request Transfer.m_accept_request Transfer.m_deny_request Transfer.m_read
  scp_alone ScpMethod.close self w = scp_close_alone self w
  scp_alone ScpMethod.pull_request self w = ground arith
  scp_alone ScpMethod.accept_request self w = ground arith
  scp_alone (ScpMethod.push_file name size mode) self w = ground arith
  scp_alone (ScpMethod.write v) self w = ground arith
  scp_alone (ScpMethod.deny_request v) self w = ground arith
  scp_alone (ScpMethod.read v) self w = ground arith
  scp_alone _ self w = refl

  -- The closing action behind a block can be replaced by an equal one.
  open_session_alone :
      (block : Option (Action P.State Value)) (self : Value) (w : World P.State)
      → among P nobody nobody (enter_open_session P (Requests.m_close P self) block self) w
        ≡ Requests.m_open_session P block self w
  unfolding enter_open_session Requests.m_open_session
  open_session_alone block self = bind_alone (get_channel self) _ _ λ holder.
      bind_alone (load_channel holder) _ _ λ (c, v).
        bind_alone (libssh P (ssh_channel_get_session c)) _ _ λ s.
          bind_alone (libssh P (ssh_is_connected s)) _ _ λ connected.
            bind_alone (if connected ==ℤ pos 0 then raise arg_error else pure tt) _ _ λ checked.
              bind_alone (load_channel holder) _ _ λ (c', v').
                pure_alone (ssh_channel_open_session c') (λ rc.
                  Channel.raise_if_error P holder rc
                  >> yield_ensure block (Requests.m_close P self))

  open_forward_alone :
      (block : Option (Action P.State Value)) (self host port : Value) (w : World P.State)
      → among P nobody nobody
          (enter_open_forward P (Requests.m_close P self) block self host port)
          w
        ≡ Requests.m_open_forward P block self host port w
  unfolding among enter_open_forward Requests.m_open_forward
  open_forward_alone block self host port w = ground arith

  init_alone :
      (block : Action P.State Value) (self : Value) (w : World P.State)
      → among P nobody nobody (enter_init P (Scp.m_close P self) block self) w
        ≡ Scp.m_init P block self w
  unfolding among enter_init Scp.m_init
  init_alone block self w = ground arith

  select_alone :
      (read write except timeout : Value) (w : World P.State)
      → select_among P nobody nobody read write except timeout w
        ≡ s_select P read write except timeout w
  unfolding select_among enter_select s_select
  select_alone read write except timeout = bind_alone (lift (select_timeout P timeout)) _ _ λ sec.
      bind_alone (set_select_channels P read) _ _ λ r.
        bind_alone (set_select_channels P write) _ _ λ q.
          bind_alone (set_select_channels P except) _ _ λ e.
            pure_alone (ssh_channel_select r q e sec)
              (λ rc. free_array P r >> (free_array P q >> (free_array P e >> pure nil)))

  channel_closing :
      (self : Value)
      → channel_among P nobody nobody ChannelMethod.close self ≡ Requests.m_close P self
  unfolding channel_among
  channel_closing self = fun_ext λ w. close_alone self w

  scp_closing : (self : Value) → scp_among P nobody nobody ScpMethod.close self ≡ Scp.m_close P self
  unfolding scp_among
  scp_closing self = fun_ext λ w. scp_close_alone self w

  run_alone :
      (m : Method P.State) (self : Value) (w : World P.State)
      → run_among P nobody nobody m self w ≡ run P m self w
  unfolding run_among run
  run_alone (of_session m) self w = session_alone m self w
  run_alone (of_channel m) self w = channel_alone m self w
  run_alone (of_scp m) self w = scp_alone m self w
  run_alone (of_key m) self w = refl
  run_alone (open_session block) self w = rw channel_closing (open_session_alone block self w)
  run_alone (open_forward block host port) self w =
      rw channel_closing (open_forward_alone block self host port w)
  run_alone (init block) self w = rw scp_closing (init_alone block self w)

  -- With no other thread at work and no interrupt, a method that releases the lock does what it
  -- does in one step with it, and so do the others and `Channel.select`.
  pub alone_lem :
      (m : Method P.State) (self read write except timeout : Value) (w : World P.State)
      → (run_among P nobody nobody m self w ≡ run P m self w)
        × (select_among P nobody nobody read write except timeout w
            ≡ s_select P read write except timeout w)
  alone_lem m self read write except timeout w =
      (run_alone m self w, select_alone read write except timeout w)
