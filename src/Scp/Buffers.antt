-- ===== src/Scp/Buffers.antt =====
-- The buffer of `read`.
use libssh_ruby.Base.{
  ℕ, suc, ℤ, pos, negsuc, ◌==ℤ◌, fits_signed, to_unsigned, ◌≡◌, Bytes, some, true, arith,
  if◌then◌else◌,
}
use libssh_ruby.Value.{fixnum, object}
use libssh_ruby.Libssh.{Handle, Platform, ssh_scp_read}
use libssh_ruby.Runtime.{World, scp, session}
use libssh_ruby.Runtime.Trace.{reply, after}
use libssh_ruby.Error.Outcome.{report}
use libssh_ruby.Channel.Stream.Buffers.{Fits, read_result}
use libssh_ruby.Scp.Transfer.{m_read, read_failed, read_done}

module _ (P : Platform) (a b : ℕ) (p s : Handle) (w : World P.State)
    (here : w.heap a ≡ some (scp p (object b))) (there : w.heap b ≡ some (session s)) where
  read_failed_lem :
      (rc : ℤ)
      → (rc ==ℤ P.ssh_error) ≡ true
      → read_failed P a rc (record w { buffers = suc w.buffers }) ≡ report P s w
  unfolding read_failed
  read_failed_lem rc bad = ground arith

read_done_lem :
    (P : Platform) (size : ℕ) (answer : ℤ × Bytes) (w : World P.State)
    → Fits size answer
    → read_done P size answer.1 answer.0 (record w { buffers = suc w.buffers })
      ≡ read_result answer w
unfolding read_done
read_done_lem P size (pos k, buf) w fits = ground arith
read_done_lem P size (negsuc k, buf) w fits = ground arith

module _ (P : Platform) (a b : ℕ) (p s : Handle) (w : World P.State)
    (here : w.heap a ≡ some (scp p (object b))) (there : w.heap b ≡ some (session s)) where
  -- `read` of a size within an `int` asks libssh for as many bytes, modulo 2 ^ 64, and returns
  -- those that libssh read; on SSH_ERROR it raises the error that libssh reports for the holder's
  -- session. Its buffer is freed both ways. Only for another code below zero it raises an
  -- ArgumentError, and the buffer is never freed.
  pub scp_read_lem :
      (size : ℤ)
      → fits_signed 31 size ≡ true
      → P.can_alloc (to_unsigned 64 size) ≡ true
      → Fits (to_unsigned 64 size) (reply P (ssh_scp_read p (to_unsigned 64 size)) w)
      → let c = ssh_scp_read p (to_unsigned 64 size) in
        m_read P (object a) (fixnum size) w ≡ (
          if (reply P c w).0 ==ℤ P.ssh_error
          then report P s (after P c w)
          else read_result (reply P c w) (after P c w))
  unfolding m_read
  scp_read_lem size small space fits =
      let c = ssh_scp_read p (to_unsigned 64 size) in
      ground (
        arith,
        read_failed_lem P a b p s (after P c w) here there (reply P c w).0,
        read_done_lem P (to_unsigned 64 size) (reply P c w) (after P c w),
      )
