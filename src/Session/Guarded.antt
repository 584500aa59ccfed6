-- ===== src/Session/Guarded.antt =====
-- The methods of a session that call libssh once and raise on SSH_ERROR.
use libssh_ruby.Base.{ℕ, ◌≡◌, Bytes, some, contains, false, arith}
use libssh_ruby.Value.{nil, object, fixnum, string, array}
use libssh_ruby.Libssh.{
  Handle, Platform, ssh_connect, ssh_is_server_known, ssh_write_knownhost, ssh_userauth_none,
  ssh_userauth_password, ssh_userauth_publickey_auto, ssh_userauth_list,
}
use libssh_ruby.Runtime.{World, session}
use libssh_ruby.Runtime.Trace.{reply, after}
use libssh_ruby.Error.Outcome.{outcome}
use libssh_ruby.Session.Connection.{m_connect, m_server_known, m_write_knownhost}
use libssh_ruby.Session.Auth.{
  m_userauth_none, m_userauth_password, m_userauth_publickey_auto, m_userauth_list, method_symbols,
}

module _ (P : Platform) (a : ℕ) (s : Handle) (w : World P.State)
    (here : w.heap a ≡ some (session s)) where
  -- `connect`, `server_known`, `write_knownhost`, `userauth_none`, `userauth_publickey_auto`,
  -- `userauth_list` and, for a password with no NUL byte, `userauth_password` call libssh once on
  -- the holder's session; the password reaches it byte by byte. On SSH_ERROR the method raises the
  -- error that libssh reports for that session. On any other answer `connect` and
  -- `write_knownhost` return nil, `userauth_list` the array of the symbols for the answer, and the
  -- others the answer.
  pub guarded_calls :
      (secret : Bytes)
      → contains secret 0 ≡ false
      → (m_connect P (object a) w
          ≡ outcome P s (reply P (ssh_connect s) w) nil (after P (ssh_connect s) w))
        × (m_server_known P (object a) w ≡ (
            let rc = reply P (ssh_is_server_known s) w in
            outcome P s rc (fixnum rc) (after P (ssh_is_server_known s) w)))
        × (m_write_knownhost P (object a) w
            ≡ outcome P s
                (reply P (ssh_write_knownhost s) w)
                nil
                (after P (ssh_write_knownhost s) w))
        × (m_userauth_none P (object a) w ≡ (
            let rc = reply P (ssh_userauth_none s) w in
            outcome P s rc (fixnum rc) (after P (ssh_userauth_none s) w)))
        × (m_userauth_publickey_auto P (object a) w ≡ (
            let rc = reply P (ssh_userauth_publickey_auto s) w in
            outcome P s rc (fixnum rc) (after P (ssh_userauth_publickey_auto s) w)))
        × (m_userauth_list P (object a) w ≡ (
            let rc = reply P (ssh_userauth_list s) w in
            outcome P s rc (array (method_symbols P rc)) (after P (ssh_userauth_list s) w)))
        × (m_userauth_password P (object a) (string secret) w ≡ (
            let rc = reply P (ssh_userauth_password s secret) w in
            outcome P s rc (fixnum rc) (after P (ssh_userauth_password s secret) w)))
  unfolding m_connect m_server_known m_write_knownhost m_userauth_none m_userauth_publickey_auto
      m_userauth_list m_userauth_password
  guarded_calls secret clean = (
    ground arith,
    ground arith,
    ground arith,
    ground arith,
    ground arith,
    ground arith,
    ground arith,
  )
