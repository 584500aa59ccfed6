-- ===== src/Channel/Bracket.antt =====
-- `open_session` and `open_forward` with a block: the channel is closed behind it.
use libssh_ruby.Base.{
  ℕ, ℤ, pos, ◌==ℤ◌, fits_signed, ◌≡◌, ◌≢◌, Bool, Bytes, contains, codes, Option, some, true, false,
  Bool-cases, inl, inr, arith, if◌then◌else◌,
}
use libssh_ruby.Value.{Value, nil, object, fixnum, string, arg_error, Result, raised, fault}
use libssh_ruby.Libssh.{
  Handle, Platform, ssh_channel_get_session, ssh_is_connected, ssh_channel_open_session,
  ssh_channel_open_forward, ssh_channel_close,
}
use libssh_ruby.Runtime.{World, Action, channel}
use libssh_ruby.Runtime.Api.{yield_ensure}
use libssh_ruby.Runtime.Trace.{reply, after}
use libssh_ruby.Error.Outcome.{report, channel_outcome}
use libssh_ruby.Channel.Requests.{m_close, m_open_session, m_open_forward}
use libssh_ruby.Channel.Guarded.{close_lem}

module _ (P : Platform) where
  -- The last step: the channel is closed, and an error of that replaces the block's result.
  abbrev pub closed_with : Handle → Result Value → World P.State → Result Value × World P.State
  closed_with c r w =
      let w' = after P (ssh_channel_close c) w in
      if reply P (ssh_channel_close c) w ==ℤ P.ssh_error
      then report P (reply P (ssh_channel_get_session c) w')
          (after P (ssh_channel_get_session c) w')
      else (r, w')

  -- The state in which the session's connection is asked for, and the one after that.
  abbrev pub session_asked : Handle → World P.State → World P.State
  session_asked c = after P (ssh_channel_get_session c)

  abbrev pub connection_asked : Handle → World P.State → World P.State
  connection_asked c w =
      after P (ssh_is_connected (reply P (ssh_channel_get_session c) w)) (session_asked c w)

  abbrev pub is_connected : Handle → World P.State → ℤ
  is_connected c w =
      reply P (ssh_is_connected (reply P (ssh_channel_get_session c) w)) (session_asked c w)

  -- Whether `open_session` gets as far as the block.
  abbrev pub opens : Handle → World P.State → Bool
  opens c w =
      if is_connected c w ==ℤ pos 0
      then false
      else if reply P (ssh_channel_open_session c) (connection_asked c w) ==ℤ P.ssh_error
      then false
      else true

  open_session-refused :
      (block : Option (Action P.State Value)) (a : ℕ) (c : Handle) (v : Value) (w : World P.State)
      → w.heap a ≡ some (channel c v)
      → opens c w ≡ false
      → m_open_session P block (object a) w ≡ (
          if is_connected c w ==ℤ pos 0
          then (raised arg_error, connection_asked c w)
          else channel_outcome P c P.ssh_error nil
              (after P (ssh_channel_open_session c) (connection_asked c w)))
  unfolding m_open_session
  open_session-refused block a c v w here shut = ground arith

module _ (P : Platform) (a : ℕ) (block : Action P.State Value) where
  yield-closes :
      (c : Handle) (v : Value) (w w' : World P.State) (r : Result Value)
      → block w ≡ (r, w')
      → r ≢ fault
      → w'.heap a ≡ some (channel c v)
      → yield_ensure (some block) (m_close P (object a)) w ≡ closed_with P c r w'
  unfolding yield_ensure
  yield-closes c v w w' r ran sound here = ground (arith, close_lem P a c v w' here)

  open_session-closes :
      (c c' : Handle) (v v' : Value) (w w' : World P.State) (r : Result Value)
      → w.heap a ≡ some (channel c v)
      → opens P c w ≡ true
      → block (after P (ssh_channel_open_session c) (connection_asked P c w)) ≡ (r, w')
      → r ≢ fault
      → w'.heap a ≡ some (channel c' v')
      → m_open_session P (some block) (object a) w ≡ closed_with P c' r w'
  unfolding m_open_session
  open_session-closes c c' v v' w w' r here opened ran sound still = ground (
    arith,
    yield-closes c' v' (after P (ssh_channel_open_session c) (connection_asked P c w)) w' r ran
        sound still,
  )

  open_forward-closes :
      (c c' : Handle) (v v' : Value) (w w' : World P.State) (r : Result Value) (host : Bytes)
      (port : ℤ)
      → w.heap a ≡ some (channel c v)
      → contains host 0 ≡ false
      → fits_signed 31 port ≡ true
      → (reply P (ssh_channel_open_forward c host port (codes "localhost") (pos 22)) w
          ==ℤ P.ssh_error)
        ≡ false
      → block (after P (ssh_channel_open_forward c host port (codes "localhost") (pos 22)) w)
        ≡ (r, w')
      → r ≢ fault
      → w'.heap a ≡ some (channel c' v')
      → m_open_forward P (some block) (object a) (string host) (fixnum port) w
        ≡ closed_with P c' r w'
  unfolding m_open_forward
  open_forward-closes c c' v v' w w' r host port here clean fits opened ran sound still = ground (
    arith,
    yield-closes c' v'
        (after P (ssh_channel_open_forward c host port (codes "localhost") (pos 22)) w) w' r ran
        sound still,
  )

  -- `open_session` with a block raises an ArgumentError where the session is not connected, and
  -- never calls `ssh_channel_open_session`; where that call fails, it raises the error of the
  -- channel's session. In both cases the block is not run and the channel is not closed. Where it
  -- succeeds, `ssh_channel_close` is called once behind the block, whether the block returns or
  -- raises, on the channel that the holder then has. The result is the block's, unless closing
  -- fails: then the error of that is raised.
  pub open_session_lem :
      (c c' : Handle) (v v' : Value) (w w' : World P.State) (r : Result Value)
      → w.heap a ≡ some (channel c v)
      → block (after P (ssh_channel_open_session c) (connection_asked P c w)) ≡ (r, w')
      → r ≢ fault
      → w'.heap a ≡ some (channel c' v')
      → m_open_session P (some block) (object a) w ≡ (
          if opens P c w
          then closed_with P c' r w'
          else if is_connected P c w ==ℤ pos 0
          then (raised arg_error, connection_asked P c w)
          else channel_outcome P c P.ssh_error nil
              (after P (ssh_channel_open_session c) (connection_asked P c w)))
  open_session_lem c c' v v' w w' r here ran sound still = elim (Bool-cases (opens P c w)) [
    | inl opened ↦ rw opened (open_session-closes c c' v v' w w' r here opened ran sound still)
    | inr shut ↦ rw shut (open_session-refused P (some block) a c v w here shut)
  ]

  open_forward-refused :
      (c : Handle) (v : Value) (w : World P.State) (host : Bytes) (port : ℤ)
      → w.heap a ≡ some (channel c v)
      → contains host 0 ≡ false
      → fits_signed 31 port ≡ true
      → let d = ssh_channel_open_forward c host port (codes "localhost") (pos 22) in
        (reply P d w ==ℤ P.ssh_error) ≡ true
        → m_open_forward P (some block) (object a) (string host) (fixnum port) w
          ≡ channel_outcome P c P.ssh_error nil (after P d w)
  unfolding m_open_forward
  open_forward-refused c v w host port here clean fits bad = ground arith

  -- `open_forward` with a block, a host with no NUL byte and a port within an `int` raises the error
  -- of the channel's session where libssh does not open the channel to them, and then the block is
  -- not run and the channel not closed. Where it does, `ssh_channel_close` is called once behind
  -- the block, whether the block returns or raises, on the channel that the holder then has. The
  -- result is the block's, which need not be the nil that the documentation of `open_forward` names,
  -- unless closing fails: then the error of that is raised.
  pub open_forward_lem :
      (c c' : Handle) (v v' : Value) (w w' : World P.State) (r : Result Value) (host : Bytes)
      (port : ℤ)
      → w.heap a ≡ some (channel c v)
      → contains host 0 ≡ false
      → fits_signed 31 port ≡ true
      → block (after P (ssh_channel_open_forward c host port (codes "localhost") (pos 22)) w)
        ≡ (r, w')
      → r ≢ fault
      → w'.heap a ≡ some (channel c' v')
      → let d = ssh_channel_open_forward c host port (codes "localhost") (pos 22) in
        m_open_forward P (some block) (object a) (string host) (fixnum port) w ≡ (
          if reply P d w ==ℤ P.ssh_error
          then channel_outcome P c P.ssh_error nil (after P d w)
          else closed_with P c' r w')
  open_forward_lem c c' v v' w w' r host port here clean fits ran sound still =
      let d = ssh_channel_open_forward c host port (codes "localhost") (pos 22) in
      elim (Bool-cases (reply P d w ==ℤ P.ssh_error)) [
        | inl bad ↦ rw bad (open_forward-refused c v w host port here clean fits bad)
        | inr good ↦
            rw good
              (open_forward-closes c c' v v' w w' r host port here clean fits good ran sound still)
      ]
