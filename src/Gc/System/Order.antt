-- ===== src/Gc/System/Order.antt =====
-- What the free functions release, and in which order.
use mathlib.Core.Path.{subst}
use libssh_ruby.Base.{ℕ, ◌≡◌, ap, List, [], ◌∷◌, ◌++◌, none, some, arith}
use libssh_ruby.Value.{object, ok}
use libssh_ruby.Libssh.{Platform, Call, ssh_free, ssh_key_free, ssh_scp_free}
use libssh_ruby.Runtime.{Holder, session, key, scp, World, update}
use libssh_ruby.Key.{key_free}
use libssh_ruby.Session.{session_free}
use libssh_ruby.Channel.{channel_free}
use libssh_ruby.Scp.{scp_free}
use libssh_ruby.Gc.{sweep}
use libssh_ruby.Gc.Live.{Live, Live-swept}
use libssh_ruby.Gc.System.{Step, collect}

-- The calls that release what a holder owns. A channel belongs to its session.
abbrev pub released : Holder → List Call
released (session (some s)) = ssh_free (some s) ∷ []
released (key (some k)) = ssh_key_free (some k) ∷ []
released (scp (some p) v) = ssh_scp_free (some p) ∷ []
released _ = []

module _ (P : Platform) where
  -- Freeing an object releases the handle that its holder owns, once and only if it is not NULL,
  -- makes no other call and leaves no holder behind; the handle of a channel is not released.
  pub sweep_lem :
      (a : ℕ) (x : Holder) (w : World P.State)
      → w.heap a ≡ some x
      → ((sweep P a w).0 ≡ ok tt)
        × ((sweep P a w).1.calls ≡ released x ++ w.calls)
        × ((sweep P a w).1.heap ≡ update w.heap a none)
        × ((sweep P a w).1.next ≡ w.next)
        × ((sweep P a w).1.buffers ≡ w.buffers)
  unfolding sweep session_free key_free channel_free scp_free
  sweep_lem a x w here = (ground arith, ground arith, ground arith, ground arith, ground arith)

  other_here :
      (a b : ℕ) (p s : ℕ) (w : World P.State)
      → w.heap a ≡ some (scp (some p) (object b))
      → w.heap b ≡ some (session (some s))
      → update w.heap b none a ≡ some (scp (some p) (object b))
  other_here a b p s w here there = ground (arith, λ (e : a ≡ b). ap w.heap e)

  -- Where neither an scp nor its session is live, the collector may free the session first, and
  -- `ssh_scp_free` is then called on an scp whose session is freed already.
  pub scp_freed_late :
      (roots : List ℕ) (a b p s : ℕ) (w : World P.State)
      → w.heap a ≡ some (scp (some p) (object b))
      → w.heap b ≡ some (session (some s))
      → ¬ Live roots w.heap a
      → ¬ Live roots w.heap b
      → let u = (sweep P b w).1 in
        let v = (sweep P a u).1 in
        Step P roots w roots u
        × Step P roots u roots v
        × (v.calls ≡ ssh_scp_free (some p) ∷ ssh_free (some s) ∷ w.calls)
  scp_freed_late roots a b p s w here there dead gone =
      let (_, c, h, _, _) = sweep_lem b (session (some s)) w there in
      let u = (sweep P b w).1 in
      let still : u.heap a ≡ some (scp (some p) (object b)) =
        rw h (other_here a b p s w here there) in
      let (_, d, _, _, _) = sweep_lem a (scp (some p) (object b)) u still in
      (
        collect b (session (some s)) there gone,
        collect a (scp (some p) (object b)) still
            (λ l. dead (Live-swept roots w.heap b (subst (λ k. Live roots k a) h l))),
        cc (c, d),
      )
