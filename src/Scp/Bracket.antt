-- ===== src/Scp/Bracket.antt =====
-- `init`: the scp is closed behind the block.
use libssh_ruby.Base.{ℕ, ◌==ℤ◌, ◌≡◌, ◌≢◌, some, false, arith, if◌then◌else◌}
use libssh_ruby.Value.{Value, object, Result, fault}
use libssh_ruby.Libssh.{Handle, Platform, ssh_scp_init, ssh_scp_close}
use libssh_ruby.Runtime.{World, Action, scp, session}
use libssh_ruby.Runtime.Api.{ensure}
use libssh_ruby.Runtime.Trace.{reply, after}
use libssh_ruby.Error.Outcome.{report}
use libssh_ruby.Scp.{m_close, m_init}
use libssh_ruby.Scp.Guarded.{close_lem}

module _ (P : Platform) where
  -- The last step: the scp is closed, and an error of that replaces the block's result.
  abbrev pub closed_with :
      Handle → Handle → Result Value → World P.State → Result Value × World P.State
  closed_with p s r w =
      let w' = after P (ssh_scp_close p) w in
      if reply P (ssh_scp_close p) w ==ℤ P.ssh_error then report P s w' else (r, w')

module _ (P : Platform) (a : ℕ) (block : Action P.State Value) where
  ensure-closes :
      (b : ℕ) (p s : Handle) (w w' : World P.State) (r : Result Value)
      → block w ≡ (r, w')
      → r ≢ fault
      → w'.heap a ≡ some (scp p (object b))
      → w'.heap b ≡ some (session s)
      → ensure block (m_close P (object a)) w ≡ closed_with P p s r w'
  unfolding ensure
  ensure-closes b p s w w' r ran sound here there =
      ground (arith, close_lem P a b p s w' here there)

  -- Where an scp is initialized, `ssh_scp_close` is called once behind the block, whether the
  -- block returns or raises, on the scp that the holder then has. The result is the block's,
  -- unless closing fails: then the error of the session that the holder then has is raised.
  pub init-closes :
      (b' : ℕ) (p p' s' : Handle) (v : Value) (w w' : World P.State) (r : Result Value)
      → w.heap a ≡ some (scp p v)
      → (reply P (ssh_scp_init p) w ==ℤ P.ssh_error) ≡ false
      → block (after P (ssh_scp_init p) w) ≡ (r, w')
      → r ≢ fault
      → w'.heap a ≡ some (scp p' (object b'))
      → w'.heap b' ≡ some (session s')
      → m_init P block (object a) w ≡ closed_with P p' s' r w'
  unfolding m_init
  init-closes b' p p' s' v w w' r here opened ran sound still there =
      ground (arith, ensure-closes b' p' s' (after P (ssh_scp_init p) w) w' r ran sound still there)
