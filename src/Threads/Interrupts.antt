-- ===== src/Threads/Interrupts.antt =====
-- What an interrupt leaves undone: `Thread#raise`, `Timeout` or a signal while a method waits.
use libssh_ruby.Base.{
  ap, ◌∙◌, ℕ, suc, ℤ, fits_signed, to_unsigned, ◌≡◌, true, false, [], ◌∷◌, arith,
}
use libssh_ruby.Value.{Exception, Result, fixnum, object, ok, raised}
use libssh_ruby.Libssh.{
  Handle, Platform, Call, ssh_channel_read_timeout, ssh_channel_read_nonblocking, ssh_scp_read,
}
use libssh_ruby.Runtime.{World}
use libssh_ruby.Runtime.Api.{fix2uint}
use libssh_ruby.Runtime.Trace.{after}
use libssh_ruby.Methods.{ChannelMethod, ScpMethod, Method, of_channel, of_scp}
use libssh_ruby.Threads.{Others, among}
use libssh_ruby.Threads.Methods.{run_among}
use libssh_ruby.Threads.Channels.{
  enter_read, enter_read_nonblocking, enter_open_session, enter_open_forward,
}
use libssh_ruby.Threads.Scps.{enter_scp_read, enter_init}
use libssh_ruby.Threads.Openings.{
  Opening, session_opening, forward_opening, scp_opening, opening_method, opening_kind,
  opening_call, opening_entered, IsOpenable,
}
use libssh_ruby.Threads.Requests.{Kind, channel_kind, scp_kind, is_kind, handle}

-- The reads of a size, and the number of bytes that Ruby makes of it.
pub data Reading : Type 0 where
  read read_nonblocking : ℤ → ℕ → Reading
  scp_read : ℤ → Reading

abbrev pub reading_method : {S : Type 0} → Reading → Method S
reading_method (read i count) = of_channel (ChannelMethod.read (fixnum i ∷ []) [])
reading_method (read_nonblocking i count) =
    of_channel (ChannelMethod.read_nonblocking (fixnum i ∷ []))
reading_method (scp_read i) = of_scp (ScpMethod.read (fixnum i))

abbrev pub reading_kind : Reading → Kind
reading_kind (scp_read i) = scp_kind
reading_kind q = channel_kind

abbrev pub IsReadable : (P : Platform) → Reading → Type 0
IsReadable P (read i count) = (fix2uint (fixnum i) ≡ ok count) × (P.can_alloc count ≡ true)
IsReadable P (read_nonblocking i count) =
    (fix2uint (fixnum i) ≡ ok count) × (P.can_alloc count ≡ true)
IsReadable P (scp_read i) = (fits_signed 31 i ≡ true) × (P.can_alloc (to_unsigned 64 i) ≡ true)

abbrev pub reading_call : Handle → Reading → Call
reading_call c (read i count) = ssh_channel_read_timeout c count false (ℤ.negsuc 0)
reading_call c (read_nonblocking i count) = ssh_channel_read_nonblocking c count false
reading_call c (scp_read i) = ssh_scp_read c (to_unsigned 64 i)

module _ (P : Platform) (a : ℕ) (before behind : Others P) (w u v : World P.State)
    (e : Exception) where
  -- The end of a read that is interrupted is the state at the interrupt.
  reads_raised :
      (q : Reading)
      → IsReadable P q
      → is_kind (reading_kind q) (w.heap a) ≡ true
      → before (record w { buffers = suc w.buffers }) ≡ (ok tt, u)
      → behind (after P (reading_call (handle (w.heap a)) q) u) ≡ (raised e, v)
      → run_among P before behind (reading_method q) (object a) w ≡ (raised e, v)
  unfolding run_among among enter_read enter_read_nonblocking enter_scp_read
  reads_raised (read i count) (size, space) here met interrupt = ground arith
  reads_raised (read_nonblocking i count) (size, space) here met interrupt = ground arith
  reads_raised (scp_read i) (size, space) here met interrupt = ground arith

  -- An opening that is interrupted behind the call raises the interrupt, whatever libssh answered:
  -- the block is not run, and what libssh opened is not closed.
  pub openings_interrupted :
      (q : Opening P.State)
      → is_kind (opening_kind q) (w.heap a) ≡ true
      → IsOpenable P (handle (w.heap a)) q w
      → before (opening_entered P (handle (w.heap a)) q w) ≡ (ok tt, u)
      → behind (after P (opening_call (handle (w.heap a)) q) u) ≡ (raised e, v)
      → run_among P before behind (opening_method q) (object a) w ≡ (raised e, v)
  unfolding run_among among enter_open_session enter_open_forward enter_init
  openings_interrupted (session_opening block) here openable met interrupt = ground arith
  openings_interrupted (forward_opening block host port) here (clean, fits) met interrupt =
      ground arith
  openings_interrupted (scp_opening block) here openable met interrupt = ground arith

-- Other threads come to a result in every state, and free the buffers that they allocate.
pub record ComesTo (P : Platform) (others : Others P) (r : Result (Unit {0})) : Type 0 where
  pub result : (x : World P.State) → (others x).0 ≡ r
  pub balanced : (x : World P.State) → (others x).1.buffers ≡ x.buffers

module _ (P : Platform) (a : ℕ) (before behind : Others P) (w : World P.State) (e : Exception) where
  -- A read of a size, on a channel or an scp, where no interrupt is pending before the call and one
  -- is behind it: the method raises the interrupt, what libssh read is lost, and the buffer is
  -- never freed. The other threads do anything else, but free the buffers that they allocate.
  pub reads_interrupted :
      (q : Reading)
      → IsReadable P q
      → is_kind (reading_kind q) (w.heap a) ≡ true
      → ComesTo P before (ok tt)
      → ComesTo P behind (raised e)
      → let met = run_among P before behind (reading_method q) (object a) w in
        (met.0 ≡ raised e) × (met.1.buffers ≡ suc w.buffers)
  reads_interrupted q readable here quiet loud =
      let x = record w { buffers = suc w.buffers } in
      let y = after P (reading_call (handle (w.heap a)) q) (before x).1 in
      let ends =
        reads_raised P a before behind w (before x).1 (behind y).1 e q readable here
          (ap (λ r. (r, (before x).1)) (quiet.result x))
          (ap (λ r. (r, (behind y).1)) (loud.result y)) in
      (ap (λ met. met.0) ends, ap (λ met. met.1.buffers) ends ∙ loud.balanced y ∙ quiet.balanced x)
