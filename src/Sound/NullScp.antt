-- ===== src/Sound/NullScp.antt =====
-- An scp that `ssh_scp_new` did not make: `scp_mark` does not mark its session.
use libssh_ruby.Base.{
  ℕ, ◌==◌, ==_iff, ◌≡◌, ◌≢◌, refl, ap, true, ◌==ℤ◌, Bool-cases, inl, inr, List, some, none, arith,
}
use libssh_ruby.Value.{Value, object, fault}
use libssh_ruby.Libssh.{Platform, Handle, ssh_scp_init, ssh_scp_close}
use libssh_ruby.Runtime.{World, Action, session, scp, update}
use libssh_ruby.Runtime.Trace.{reply}
use libssh_ruby.Scp.{m_init, m_close}
use libssh_ruby.Gc.{marks, sweep}
use libssh_ruby.Gc.Live.{In, Live, root, marked}
use libssh_ruby.Gc.System.{Step, collect}
use libssh_ruby.Gc.System.Order.{sweep_lem}

module _ (P : Platform) where
  null_init :
      (a b : ℕ) (block : Action P.State Value) (u : World P.State)
      → u.heap a ≡ some (scp none (object b))
      → u.heap b ≡ none
      → (reply P (ssh_scp_init none) u ==ℤ P.ssh_error) ≡ true
      → (m_init P block (object a) u).0 ≡ fault
  unfolding m_init
  null_init a b block u here gone bad = ground arith

  null_close :
      (a b : ℕ) (u : World P.State)
      → u.heap a ≡ some (scp none (object b))
      → u.heap b ≡ none
      → (reply P (ssh_scp_close none) u ==ℤ P.ssh_error) ≡ true
      → (m_close P (object a) u).0 ≡ fault
  unfolding m_close
  null_close a b u here gone bad = ground arith

  swept_scp :
      (a b : ℕ) (s : Handle) (w : World P.State)
      → w.heap a ≡ some (scp none (object b))
      → w.heap b ≡ some (session s)
      → (update w.heap b none a ≡ some (scp none (object b))) × (update w.heap b none b ≡ none)
  swept_scp a b s w here there = (ground (arith, λ (e : a ≡ b). ap w.heap e), ground arith)

  -- What nothing but the scp leads to is not live.
  only_kept :
      (roots : List ℕ) (a b : ℕ) (w : World P.State)
      → w.heap a ≡ some (scp none (object b))
      → ((x : ℕ) → In roots x → x ≢ b)
      → ((x : ℕ) → x ≢ a → marks (w.heap x) ≢ some (object b))
      → {x : ℕ} → Live roots w.heap x
      → x ≢ b
  only_kept roots a b w here unrooted unmarked (root {a = x} r) = unrooted x r
  only_kept roots a b w here unrooted unmarked (marked {a = x} {b = y} l e) = λ y_is_b.
      elim (Bool-cases (x == a)) [
        | inl same ↦ ground (arith, (==_iff x a).0 same, ap w.heap ((==_iff x a).0 same), e, here)
        | inr other ↦ ground (arith, other, unmarked x, e, y_is_b)
      ]

  -- Where `ssh_scp_new` returned NULL, the scp does not mark its session: if no root is the
  -- session and no other object marks it, the collector may free the session although the scp is a
  -- root. `init` and `close` of the scp then read the freed session, if libssh refuses the NULL.
  pub null_scp_faults :
      (roots : List ℕ) (a b : ℕ) (s : Handle) (block : Action P.State Value) (w : World P.State)
      → In roots a
      → w.heap a ≡ some (scp none (object b))
      → w.heap b ≡ some (session s)
      → ((x : ℕ) → In roots x → x ≢ b)
      → ((x : ℕ) → x ≢ a → marks (w.heap x) ≢ some (object b))
      → (reply P (ssh_scp_init none) (sweep P b w).1 ==ℤ P.ssh_error) ≡ true
      → (reply P (ssh_scp_close none) (sweep P b w).1 ==ℤ P.ssh_error) ≡ true
      → let u = (sweep P b w).1 in
        Step P roots w roots u
        × Live roots u.heap a
        × ((m_init P block (object a) u).0 ≡ fault)
        × ((m_close P (object a) u).0 ≡ fault)
  null_scp_faults roots a b s block w referred here there unrooted unmarked bad_init bad_close =
      let (_, _, h, _, _) = sweep_lem P b (session s) w there in
      let (still, gone) = swept_scp a b s w here there in
      let u = (sweep P b w).1 in
      let scp_still : u.heap a ≡ some (scp none (object b)) = rw h still in
      let session_gone : u.heap b ≡ none = rw h gone in
      (
        collect b (session s) there λ l. only_kept roots a b w here unrooted unmarked l refl,
        root referred,
        null_init a b block u scp_still session_gone bad_init,
        null_close a b u scp_still session_gone bad_close,
      )
