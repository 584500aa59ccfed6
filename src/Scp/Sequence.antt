-- ===== src/Scp/Sequence.antt =====
-- `init` with a block of transfer calls, against the description of a transfer.
use libssh_ruby.Base.{
  ℕ, ℤ, pos, negsuc, ◌==ℤ◌, to_unsigned, Bytes, ◌≡◌, ◌≢◌, refl, ap, ◌∙◌, Bool-cases, inl, inr, [],
  Option, none, some, arith, if◌then◌else◌,
}
use libssh_ruby.Value.{Value, object, Result, ok, raised, fault}
use libssh_ruby.Libssh.{Handle, Platform, ssh_scp_init, ssh_scp_read}
use libssh_ruby.Runtime.{World, scp, session, continue, ◌>>=◌}
use libssh_ruby.Runtime.Trace.{reply, after}
use libssh_ruby.Error.Outcome.{report, outcome, error_of}
use libssh_ruby.Channel.Stream.Buffers.{Fits, read_result}
use libssh_ruby.Scp.{m_init}
use libssh_ruby.Scp.Transfer.{m_request_size, m_request_filename, m_request_warning}
use libssh_ruby.Scp.Guarded.{single_transfers, push_file_lem}
use libssh_ruby.Scp.Bracket.{closed_with, init-closes}
use libssh_ruby.Scp.Buffers.{scp_read_lem}
use libssh_ruby.Scp.Script.{
  Operation, push_file, write, deny_request, read, pull_request, accept_request,
  request_permissions, request_size, request_filename, request_warning, Script, finish, step,
  IsValid, AllValid, operate, perform, met, transfer,
}

-- Libssh reads no more into a buffer than it holds.
abbrev pub ReadFits : Platform → Type 0
ReadFits P = (p : Handle) (n : ℕ) (st : P.State) → Fits n (P.answer (ssh_scp_read p n) st).0

-- An operation returns or raises, and writes no holder.
abbrev Settled : {S : Type 0} → World S → Result Value × World S → Type 0
Settled w (r, w') = (r ≢ fault) × (w'.heap ≡ w.heap)

module _ (P : Platform) (s : Handle) where
  report-Settled : (w : World P.State) → Settled w (report P s w)
  report-Settled w = (error_sound _ _, refl)
    where
      error_sound : (code : ℤ) (text : Option Bytes) → error_of {A = Value} code text ≢ fault
      error_sound code none = ground arith
      error_sound code (some text) = ground arith

  outcome-Settled : (rc : ℤ) (v : Value) (w : World P.State) → Settled w (outcome P s rc v w)
  outcome-Settled rc v w = elim (Bool-cases (rc ==ℤ P.ssh_error)) [
    | inl bad ↦ rw bad (report-Settled w)
    | inr good ↦ rw good (ground arith, refl)
  ]

read_result-Settled :
    {S : Type 0} (answer : ℤ × Bytes) (w : World S) → Settled w (read_result answer w)
read_result-Settled (pos k, buf) w = (ground arith, refl)
read_result-Settled (negsuc k, buf) w = (ground arith, refl)

module _ (P : Platform) (p s : Handle) where
  met-Settled : (o : Operation) (w : World P.State) → Settled w (met P p s o w)
  unfolding met
  met-Settled (push_file name size mode) w = outcome-Settled P s _ _ _
  met-Settled (write text) w = outcome-Settled P s _ _ _
  met-Settled (deny_request reason) w = outcome-Settled P s _ _ _
  met-Settled pull_request w = outcome-Settled P s _ _ _
  met-Settled accept_request w = outcome-Settled P s _ _ _
  met-Settled request_permissions w = outcome-Settled P s _ _ _
  met-Settled request_size w = (ground arith, refl)
  met-Settled request_filename w = (ground arith, refl)
  met-Settled request_warning w = (ground arith, refl)
  met-Settled (read size) w =
      let c = ssh_scp_read p (to_unsigned 64 size) in
      elim (Bool-cases ((reply P c w).0 ==ℤ P.ssh_error)) [
        | inl bad ↦ rw bad (report-Settled P s (after P c w))
        | inr good ↦ rw good (read_result-Settled (reply P c w) (after P c w))
      ]

  continue-Settled :
      (w : World P.State) (m : Result Value × World P.State)
      (f : Value → World P.State → Result Value × World P.State)
      → Settled w m
      → ((v : Value) (u : World P.State) → Settled u (f v u))
      → Settled w (continue m.0 f m.1)
  continue-Settled w (ok v, u) f (sound, still) g = ((g v u).0, (g v u).1 ∙ still)
  continue-Settled w (raised e, u) f settled g = settled
  continue-Settled w (fault, u) f settled g = settled

  transfer-Settled : (t : Script) (w : World P.State) → Settled w (transfer P p s t w)
  unfolding transfer
  transfer-Settled (finish v) w = (ground arith, refl)
  transfer-Settled (step o go_on) w =
      continue-Settled w (met P p s o w) (λ v. transfer P p s (go_on v)) (met-Settled o w)
        (λ v. transfer-Settled (go_on v))

-- What follows an operation only has to be described where the holders are what they were.
continue_same :
    {S : Type 0} (w : World S) (m : Result Value × World S)
    (f g : Value → World S → Result Value × World S)
    → Settled w m
    → ((v : Value) (u : World S) → u.heap ≡ w.heap → f v u ≡ g v u)
    → continue m.0 f m.1 ≡ continue m.0 g m.1
continue_same w (ok v, u) f g (sound, still) same = same v u still
continue_same w (raised e, u) f g settled same = refl
continue_same w (fault, u) f g settled same = refl

module _ (P : Platform) (fits : ReadFits P) (a b : ℕ) (p s : Handle) where
  operate_lem :
      (o : Operation) (w : World P.State)
      → w.heap a ≡ some (scp p (object b))
      → w.heap b ≡ some (session s)
      → IsValid P o
      → operate P o (object a) w ≡ met P p s o w
  unfolding met m_request_size m_request_filename m_request_warning
  operate_lem (push_file name size mode) w here there (clean, small) =
      push_file_lem P a b p s w here there name size mode clean small
  operate_lem (deny_request reason) w here there clean =
      (single_transfers P a b p s w here there [] reason clean).4
  operate_lem (write text) w here there v = (single_transfers P a b p s w here there text [] refl).1
  operate_lem pull_request w here there v = (single_transfers P a b p s w here there [] [] refl).2
  operate_lem accept_request w here there v = (single_transfers P a b p s w here there [] [] refl).3
  operate_lem request_permissions w here there v =
      (single_transfers P a b p s w here there [] [] refl).5
  operate_lem (read size) w here there (small, space) =
      scp_read_lem P a b p s w here there size small space (fits p (to_unsigned 64 size) w.ssh)
  operate_lem request_size w here there v = ground arith
  operate_lem request_filename w here there v = ground arith
  operate_lem request_warning w here there v = ground arith

  perform_lem :
      (t : Script) (w : World P.State)
      → w.heap a ≡ some (scp p (object b))
      → w.heap b ≡ some (session s)
      → AllValid P t
      → perform P t (object a) w ≡ transfer P p s t w
  unfolding perform transfer ◌>>=◌
  perform_lem (finish v) w here there valid = refl
  perform_lem (step o go_on) w here there (valid, valid_on) =
      rw (operate_lem o w here there valid) (
        continue_same w (met P p s o w) (λ v. perform P (go_on v) (object a))
          (λ v. transfer P p s (go_on v)) (met-Settled P p s o w)
          (λ v u still.
            perform_lem (go_on v) u (ap (λ h. h a) still ∙ here) (ap (λ h. h b) still ∙ there)
              (valid_on v)))

  -- `init` with any block that makes calls of the transfer methods with accepted arguments, each
  -- chosen by the results of those before, and comes to an end, does what the description says:
  -- libssh initializes the scp, gets the calls in order up to the first that raises, and closes
  -- the scp; the result is that of the block, or what was raised, unless closing fails. A call
  -- that gives a code raises on SSH_ERROR, and `read` on every code below zero; asking for a size, a
  -- filename or a warning never raises. Where initializing fails, that error is raised, and neither
  -- the block is run nor the scp closed. Libssh reads no more into a buffer than it holds.
  pub init-transfer :
      (t : Script) (w : World P.State)
      → w.heap a ≡ some (scp p (object b))
      → w.heap b ≡ some (session s)
      → AllValid P t
      → let w' = after P (ssh_scp_init p) w in
        m_init P (perform P t (object a)) (object a) w ≡ (
          if reply P (ssh_scp_init p) w ==ℤ P.ssh_error
          then report P s w'
          else closed_with P p s (transfer P p s t w').0 (transfer P p s t w').1)
  unfolding m_init
  init-transfer t w here there valid =
      let w' = after P (ssh_scp_init p) w in
      let (sound, still) = transfer-Settled P p s t w' in
      elim (Bool-cases (reply P (ssh_scp_init p) w ==ℤ P.ssh_error)) [
        | inl bad ↦ ground arith
        | inr good ↦ rw good (
            init-closes P a (perform P t (object a)) b p p s (object b) w (transfer P p s t w').1
              (transfer P p s t w').0 here good (perform_lem t w' here there valid) sound
              (ap (λ h. h a) still ∙ here) (ap (λ h. h b) still ∙ there))
      ]
