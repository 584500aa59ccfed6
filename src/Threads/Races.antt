-- ===== src/Threads/Races.antt =====
-- What a method comes to when other threads run while it waits.
use libssh_ruby.Base.{
  pos, codes, fits_signed, contains, Bytes, Option, refl, ℕ, ℤ, ◌≡◌, ◌∙◌, true, false, arith,
}
use libssh_ruby.Value.{Value, string, fixnum, object, Result, ok, raised, fault}
use libssh_ruby.Libssh.{
  Platform, Call, Answer, ssh_channel_open_session, ssh_channel_open_forward, ssh_scp_init,
}
use libssh_ruby.Runtime.Trace.{reply, after}
use libssh_ruby.Runtime.Api.{ensure, yield_ensure}
use libssh_ruby.Runtime.{World}
use libssh_ruby.Threads.{Suspended, Others, among, without_gvl}
use libssh_ruby.Threads.Methods.{run_among}
use libssh_ruby.Threads.Channels.{
  enter_close, enter_request_exec, enter_request_pty, enter_poll, enter_write, enter_send_eof,
}
use libssh_ruby.Threads.Sessions.{enter_connect, enter_userauth_publickey_auto}
use libssh_ruby.Threads.Scps.{
  enter_scp_close, enter_push_file, enter_scp_write, enter_pull_request, enter_accept_request,
  enter_deny_request,
}
use libssh_ruby.Runtime.{Action, libssh, ◌>>=◌, ◌>>◌}
use libssh_ruby.Channel
use libssh_ruby.Scp
use libssh_ruby.Threads.Channels.{enter_open_session, enter_open_forward}
use libssh_ruby.Threads.Scps.{enter_init}
use libssh_ruby.Threads.Openings.{
  Opening, session_opening, forward_opening, scp_opening, opening_method, opening_kind,
  opening_entered, IsOpenable, Waiting, request, opening, waiting_method, waiting_kind, IsWaiting,
  entered, opened, waited, bracketed, resumed,
}
use libssh_ruby.Threads.Requests.{
  Request, connect, publickey_auto, close, request_pty, send_eof, request_exec, write, poll,
  scp_close, pull_request, accept_request, push_file, scp_write, deny_request, method_of,
  IsAccepted, Kind, session_kind, channel_kind, scp_kind, kind_of, is_kind, handle, still, asked,
  returned, reported, unless_interrupted, leave,
}

unless_same :
    (P : Platform) (met : Result (Unit {0}) × World P.State)
    (f g : World P.State → Result Value × World P.State)
    → f met.1 ≡ g met.1
    → unless_interrupted P met f ≡ unless_interrupted P met g
unless_same P (ok tt, w) f g same = same
unless_same P (raised e, w) f g same = refl
unless_same P (fault, w) f g same = refl

-- What follows once a method has come to its `nogvl` function.
module _ (P : Platform) (before behind : Others P) (c : Call)
    (resume : Answer c → Action P.State Value) where
  among_entered :
      (entered : Action P.State (Suspended P)) (w v : World P.State)
      → entered w ≡ (ok (c, resume), v)
      → among P before behind entered w
        ≡ unless_interrupted P
            (before v)
            λ u. unless_interrupted P (behind (after P c u)) (resume (reply P c u))
  unfolding among without_gvl ◌>>=◌ libssh
  among_entered entered w v come = rw come (ground arith)

module _ (P : Platform) (a : ℕ) where
  leave_lem :
      (k : Kind) (rc : ℤ) (v : Value) (w : World P.State)
      → still k w.heap a ≡ true
      → leave P k a rc v w ≡ reported P k a rc v w
  unfolding leave
  leave_lem session_kind rc v w here = ground arith
  leave_lem channel_kind rc v w here = ground arith
  leave_lem scp_kind rc v w here = ground arith

  entering_session :
      (closing : Action P.State Value) (block : Option (Action P.State Value)) (w : World P.State)
      → is_kind channel_kind (w.heap a) ≡ true
      → IsOpenable P (handle (w.heap a)) (session_opening block) w
      → enter_open_session P closing block (object a) w ≡ (
        ok (
          ssh_channel_open_session (handle (w.heap a)),
          λ rc. Channel.raise_if_error P a rc >> yield_ensure block closing,
        ),
        opening_entered P (handle (w.heap a)) (session_opening block) w,
      )
  unfolding enter_open_session
  entering_session closing block w here openable = ground arith

  entering_forward :
      (closing : Action P.State Value) (block : Option (Action P.State Value)) (host : Bytes)
      (port : ℤ) (w : World P.State)
      → is_kind channel_kind (w.heap a) ≡ true
      → contains host 0 ≡ false
      → fits_signed 31 port ≡ true
      → enter_open_forward P closing block (object a) (string host) (fixnum port) w ≡ (
        ok (
          ssh_channel_open_forward (handle (w.heap a)) host port (codes "localhost") (pos 22),
          λ rc. Channel.raise_if_error P a rc >> yield_ensure block closing,
        ),
        w,
      )
  unfolding enter_open_forward
  entering_forward closing block host port w here clean fits = ground arith

  entering_init :
      (closing block : Action P.State Value) (w : World P.State)
      → is_kind scp_kind (w.heap a) ≡ true
      → enter_init P closing block (object a) w ≡ (
        ok (
          ssh_scp_init (handle (w.heap a)),
          λ rc. Scp.raise_if_error P a rc >> ensure block closing,
        ),
        w,
      )
  unfolding enter_init
  entering_init closing block w here = ground arith

  -- An opening with the lock again: the macro `RAISE_IF_ERROR`, and then the block.
  left : Others P → Others P → Opening P.State → ℤ → Action P.State Value
  unfolding ◌>>=◌ Channel.raise_if_error Scp.raise_if_error
  left before behind (scp_opening block) rc =
      Scp.raise_if_error P a rc >> bracketed P before behind a (scp_opening block)
  left before behind q rc = Channel.raise_if_error P a rc >> bracketed P before behind a q

  left_lem :
      (before behind : Others P) (q : Opening P.State) (rc : ℤ) (v : World P.State)
      → still (opening_kind q) v.heap a ≡ true
      → left before behind q rc v ≡ resumed P before behind a (opening q) rc v
  unfolding left
  left_lem before behind (session_opening block) rc v here = ground arith
  left_lem before behind (forward_opening block host port) rc v here = ground arith
  left_lem before behind (scp_opening block) rc v here = ground arith

  module _ (before behind : Others P) (w : World P.State) where
    -- The method up to the point where it has the lock again.
    steps :
        (q : Request)
        → IsAccepted q
        → is_kind (kind_of q) (w.heap a) ≡ true
        → run_among P before behind (method_of q) (object a) w
          ≡ unless_interrupted P (before w) λ u.
            let (rc, u') = asked P (handle (w.heap a)) q u in
            unless_interrupted P (behind u') (leave P (kind_of q) a rc (returned P q rc))
    unfolding run_among among leave enter_connect enter_userauth_publickey_auto enter_close
        enter_request_pty enter_send_eof enter_request_exec enter_write enter_poll enter_scp_close
        enter_push_file enter_scp_write enter_pull_request enter_accept_request enter_deny_request
    steps connect accepted here = ground arith
    steps publickey_auto accepted here = ground arith
    steps close accepted here = ground arith
    steps request_pty accepted here = ground arith
    steps send_eof accepted here = ground arith
    steps (request_exec text) accepted here = ground arith
    steps (write bytes) accepted here = ground arith
    steps (poll timeout true) accepted here = ground arith
    steps (poll timeout false) accepted here = ground arith
    steps scp_close accepted here = ground arith
    steps pull_request accepted here = ground arith
    steps accept_request accepted here = ground arith
    steps (push_file name size mode) (clean, fits) here = ground arith
    steps (scp_write bytes) accepted here = ground arith
    steps (deny_request reason) accepted here = ground arith

    requests_among :
        (q : Request)
        → IsAccepted q
        → is_kind (kind_of q) (w.heap a) ≡ true
        → still (kind_of q) (behind (asked P (handle (w.heap a)) q (before w).1).1).1.heap a ≡ true
        → run_among P before behind (method_of q) (object a) w
          ≡ unless_interrupted P (before w) λ u.
            let (rc, u') = asked P (handle (w.heap a)) q u in
            unless_interrupted P (behind u') (reported P (kind_of q) a rc (returned P q rc))
    requests_among q accepted here kept =
        let (rc, u') = asked P (handle (w.heap a)) q (before w).1 in
        steps q accepted here
        ∙ unless_same P (before w) _ _ (
            unless_same P (behind u') _ _
              (leave_lem (kind_of q) rc (returned P q rc) (behind u').1 kept))

    -- The same for the openings, up to the point where they have the lock again.
    opening_steps :
        (q : Opening P.State)
        → is_kind (opening_kind q) (w.heap a) ≡ true
        → IsOpenable P (handle (w.heap a)) q w
        → run_among P before behind (opening_method q) (object a) w
          ≡ unless_interrupted P (before (opening_entered P (handle (w.heap a)) q w)) λ u.
            let (rc, u') = opened P (handle (w.heap a)) q u in
            unless_interrupted P (behind u') (left before behind q rc)
    unfolding run_among left
    opening_steps (session_opening block) here openable =
        among_entered P before behind _ _ _ w _ (entering_session _ block w here openable)
    opening_steps (forward_opening block host port) here (clean, fits) =
        among_entered P before behind _ _ _ w _
          (entering_forward _ block host port w here clean fits)
    opening_steps (scp_opening block) here openable =
        among_entered P before behind _ _ _ w _ (entering_init _ block w here)

    openings_among :
        (q : Opening P.State)
        → is_kind (opening_kind q) (w.heap a) ≡ true
        → IsOpenable P (handle (w.heap a)) q w
        → let u = (before (opening_entered P (handle (w.heap a)) q w)).1 in
          still (opening_kind q) (behind (opened P (handle (w.heap a)) q u).1).1.heap a ≡ true
          → run_among P before behind (opening_method q) (object a) w
            ≡ unless_interrupted P (before (opening_entered P (handle (w.heap a)) q w)) λ u.
              let (rc, u') = opened P (handle (w.heap a)) q u in
              unless_interrupted P (behind u') (resumed P before behind a (opening q) rc)
    openings_among q here openable kept =
        let met = before (opening_entered P (handle (w.heap a)) q w) in
        let (rc, u') = opened P (handle (w.heap a)) q met.1 in
        opening_steps q here openable
        ∙ unless_same P met _ _
            (unless_same P (behind u') _ _ (left_lem before behind q rc (behind u').1 kept))

    -- The methods that test libssh's code behind the wait are `connect` and
    -- `userauth_publickey_auto`; `close`, `request_pty`, `send_eof`, `request_exec`, `write`, `poll`,
    -- `open_session` and `open_forward` of a channel; `close`, `push_file`, `write`, `pull_request`,
    -- `accept_request`, `deny_request`, `init` and `read` of an scp. This is about all but the last,
    -- with accepted arguments, and a connected session for `open_session`, while other threads do
    -- anything before and behind the call, but leave the object what it is. The method makes the
    -- call of libssh that it waits for once, on the structure that the holder had when the method
    -- was entered; `open_session` first asks for the session and its connection. Any code but
    -- SSH_ERROR gives the method's usual result: an opening runs its block and closes behind it,
    -- among other threads again. On SSH_ERROR the error is asked for after the others ran, for the
    -- session of the channel that the holder has by then, or for the session that it keeps by then,
    -- and no block is run. An interrupt before the call is raised with no such call made, and one
    -- behind it is raised in place of the result or the error.
    pub among_lem :
        (q : Waiting P.State)
        → IsWaiting P (handle (w.heap a)) q w
        → is_kind (waiting_kind q) (w.heap a) ≡ true
        → let u = (before (entered P (handle (w.heap a)) q w)).1 in
          still (waiting_kind q) (behind (waited P (handle (w.heap a)) q u).1).1.heap a ≡ true
          → run_among P before behind (waiting_method q) (object a) w
            ≡ unless_interrupted P (before (entered P (handle (w.heap a)) q w)) λ u.
              let (rc, u') = waited P (handle (w.heap a)) q u in
              unless_interrupted P (behind u') (resumed P before behind a q rc)
    among_lem (request q) accepted here kept = requests_among q accepted here kept
    among_lem (opening q) openable here kept = openings_among q here openable kept
