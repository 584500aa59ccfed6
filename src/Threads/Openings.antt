-- ===== src/Threads/Openings.antt =====
-- The methods that run a block once they have waited, and all that test the code of libssh behind
-- the wait but `Scp#read`.
use libssh_ruby.Base.{
  ℕ, ℤ, pos, ◌==ℤ◌, fits_signed, codes, ◌≡◌, true, false, Bytes, contains, Option, if◌then◌else◌,
}
use libssh_ruby.Value.{Value, nil, fixnum, string, object, Result}
use libssh_ruby.Libssh.{
  Handle, Platform, Call, ssh_channel_get_session, ssh_is_connected, ssh_channel_open_session,
  ssh_channel_open_forward, ssh_scp_init,
}
use libssh_ruby.Runtime.{World, Action}
use libssh_ruby.Runtime.Api.{ensure, yield_ensure}
use libssh_ruby.Runtime.Trace.{reply, after}
use libssh_ruby.Methods.{ChannelMethod, ScpMethod, Method, open_session, open_forward, init}
use libssh_ruby.Threads.{Others}
use libssh_ruby.Threads.Methods.{channel_among, scp_among}
use libssh_ruby.Threads.Requests.{
  Request, method_of, IsAccepted, Kind, channel_kind, scp_kind, kind_of, asked, returned, reported,
}

-- The methods that run a block, and what they close behind it.
pub data Opening (S : Type 0) : Type 0 where
  session_opening : Option (Action S Value) → Opening S
  forward_opening : Option (Action S Value) → Bytes → ℤ → Opening S
  scp_opening : Action S Value → Opening S

abbrev pub opening_method : {S : Type 0} → Opening S → Method S
opening_method (session_opening block) = open_session block
opening_method (forward_opening block host port) = open_forward block (string host) (fixnum port)
opening_method (scp_opening block) = init block

abbrev pub opening_kind : {S : Type 0} → Opening S → Kind
opening_kind (scp_opening block) = scp_kind
opening_kind q = channel_kind

abbrev pub opening_call : {S : Type 0} → Handle → Opening S → Call
opening_call c (session_opening block) = ssh_channel_open_session c
opening_call c (forward_opening block host port) =
    ssh_channel_open_forward c host port (codes "localhost") (pos 22)
opening_call c (scp_opening block) = ssh_scp_init c

module _ (P : Platform) where
  -- `open_session` first asks whether the session of the channel is connected.
  abbrev pub opening_entered : Handle → Opening P.State → World P.State → World P.State
  opening_entered c (session_opening block) w =
      let s = reply P (ssh_channel_get_session c) w in
      after P (ssh_is_connected s) (after P (ssh_channel_get_session c) w)
  opening_entered c q w = w

  abbrev pub IsOpenable : Handle → Opening P.State → World P.State → Type 0
  IsOpenable c (session_opening block) w =
      let s = reply P (ssh_channel_get_session c) w in
      (reply P (ssh_is_connected s) (after P (ssh_channel_get_session c) w) ==ℤ pos 0) ≡ false
  IsOpenable c (forward_opening block host port) w =
      (contains host 0 ≡ false) × (fits_signed 31 port ≡ true)
  IsOpenable c (scp_opening block) w = Unit

-- A method that tests the code behind the wait: a request, or an opening.
pub data Waiting (S : Type 0) : Type 0 where
  request : Request → Waiting S
  opening : Opening S → Waiting S

abbrev pub waiting_method : {S : Type 0} → Waiting S → Method S
waiting_method (request q) = method_of q
waiting_method (opening q) = opening_method q

abbrev pub waiting_kind : {S : Type 0} → Waiting S → Kind
waiting_kind (request q) = kind_of q
waiting_kind (opening q) = opening_kind q

module _ (P : Platform) where
  -- Arguments that are accepted, and for `open_session` a session that is connected.
  abbrev pub IsWaiting : Handle → Waiting P.State → World P.State → Type 0
  IsWaiting c (request q) w = IsAccepted q
  IsWaiting c (opening q) w = IsOpenable P c q w

  -- The state in which the lock is released.
  abbrev pub entered : Handle → Waiting P.State → World P.State → World P.State
  entered c (request q) w = w
  entered c (opening q) w = opening_entered P c q w

  -- The code of an opening, and the state that its call leaves.
  abbrev pub opened : Handle → Opening P.State → World P.State → ℤ × World P.State
  opened c (session_opening block) w =
      (reply P (ssh_channel_open_session c) w, after P (ssh_channel_open_session c) w)
  opened c (forward_opening block host port) w =
      let call = ssh_channel_open_forward c host port (codes "localhost") (pos 22) in
      (reply P call w, after P call w)
  opened c (scp_opening block) w = (reply P (ssh_scp_init c) w, after P (ssh_scp_init c) w)

  abbrev pub waited : Handle → Waiting P.State → World P.State → ℤ × World P.State
  waited c (request q) w = asked P c q w
  waited c (opening q) w = opened c q w

  -- Once the lock is taken again: an error is reported, a request is done, and an opening runs its
  -- block and closes behind it, among other threads again.
  abbrev pub bracketed :
      Others P → Others P → ℕ → Opening P.State → World P.State → Result Value × World P.State
  bracketed before behind a (session_opening block) =
      yield_ensure block (channel_among P before behind ChannelMethod.close (object a))
  bracketed before behind a (forward_opening block host port) =
      yield_ensure block (channel_among P before behind ChannelMethod.close (object a))
  bracketed before behind a (scp_opening block) =
      ensure block (scp_among P before behind ScpMethod.close (object a))

  abbrev pub resumed :
      Others P → Others P → ℕ → Waiting P.State → ℤ → World P.State → Result Value × World P.State
  resumed before behind a (request q) rc v = reported P (kind_of q) a rc (returned P q rc) v
  resumed before behind a (opening q) rc v =
      if rc ==ℤ P.ssh_error
      then reported P (opening_kind q) a rc nil v
      else bracketed before behind a q v
