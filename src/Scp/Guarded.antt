-- ===== src/Scp/Guarded.antt =====
-- The methods of an scp that call libssh once and raise on SSH_ERROR, and `initialize`.
use libssh_ruby.Base.{
  ℕ, ℤ, fits_signed, to_unsigned, ◌≡◌, ◌≢◌, ◌⊎◌, inl, inr, Bool-cases, str_eq, Bytes, String, some,
  contains, false, true, arith, eq_iff,
}
use libssh_ruby.Value.{Value, nil, object, fixnum, string, symbol, Result, ok, raised, arg_error}
use libssh_ruby.Libssh.{
  Handle, Platform, ScpMode, read_mode, write_mode, ssh_scp_close, ssh_scp_write,
  ssh_scp_pull_request, ssh_scp_accept_request, ssh_scp_deny_request,
  ssh_scp_request_get_permissions, ssh_scp_push_file64, ssh_scp_new,
}
use libssh_ruby.Runtime.{World, scp, session, update}
use libssh_ruby.Runtime.Trace.{reply, after}
use libssh_ruby.Error.Outcome.{outcome}
use libssh_ruby.Scp.{m_close, m_initialize, new_scp}
use libssh_ruby.Scp.Transfer.{
  m_push_file, m_write, m_pull_request, m_accept_request, m_deny_request, m_request_permissions,
}

-- The symbols for the two modes.
abbrev pub mode_name : ScpMode → String
mode_name read_mode = "read"
mode_name write_mode = "write"

module _ (P : Platform) (a b : ℕ) (p s : Handle) (w : World P.State)
    (here : w.heap a ≡ some (scp p (object b))) (there : w.heap b ≡ some (session s)) where
  pub close_lem :
      m_close P (object a) w
      ≡ outcome P s (reply P (ssh_scp_close p) w) nil (after P (ssh_scp_close p) w)
  unfolding m_close
  close_lem = ground arith

  pub single_transfers :
      (text reason : Bytes)
      → contains reason 0 ≡ false
      → (m_close P (object a) w
          ≡ outcome P s (reply P (ssh_scp_close p) w) nil (after P (ssh_scp_close p) w))
        × (m_write P (object a) (string text) w
            ≡ outcome P s (reply P (ssh_scp_write p text) w) nil (after P (ssh_scp_write p text) w))
        × (m_pull_request P (object a) w ≡ (
            let rc = reply P (ssh_scp_pull_request p) w in
            outcome P s rc (fixnum rc) (after P (ssh_scp_pull_request p) w)))
        × (m_accept_request P (object a) w
            ≡ outcome P s
                (reply P (ssh_scp_accept_request p) w)
                nil
                (after P (ssh_scp_accept_request p) w))
        × (m_deny_request P (object a) (string reason) w
            ≡ outcome P s
                (reply P (ssh_scp_deny_request p reason) w)
                nil
                (after P (ssh_scp_deny_request p reason) w))
        × (m_request_permissions P (object a) w ≡ (
            let rc = reply P (ssh_scp_request_get_permissions p) w in
            outcome P s rc (fixnum rc) (after P (ssh_scp_request_get_permissions p) w)))
  unfolding m_close m_write m_pull_request m_accept_request m_deny_request m_request_permissions
  single_transfers text reason clean =
      (ground arith, ground arith, ground arith, ground arith, ground arith, ground arith)

  pub push_file_lem :
      (name : Bytes) (size mode : ℤ)
      → contains name 0 ≡ false
      → fits_signed 31 mode ≡ true
      → let c = ssh_scp_push_file64 p name (to_unsigned 64 size) mode in
        m_push_file P (object a) (string name) (fixnum size) (fixnum mode) w
        ≡ outcome P s (reply P c w) nil (after P c w)
  unfolding m_push_file
  push_file_lem name size mode clean fits = ground arith

  -- Closing an scp, writing any string, waiting for a request, accepting it, denying it for a
  -- reason with no NUL byte, asking for permissions, and announcing a file by a name with no NUL
  -- byte, a fixnum for its size and a fixnum within an `int` for its mode call libssh once on the
  -- holder's scp. The size is announced modulo 2 ^ 64, so a negative size as a huge one. On
  -- SSH_ERROR the method raises the error that libssh reports for the session that the holder
  -- keeps. On any other code `pull_request` and `request_permissions` return the code, and the
  -- others return nil.
  pub guarded_transfers :
      (text reason name : Bytes) (size mode : ℤ)
      → contains reason 0 ≡ false
      → contains name 0 ≡ false
      → fits_signed 31 mode ≡ true
      → (m_close P (object a) w
          ≡ outcome P s (reply P (ssh_scp_close p) w) nil (after P (ssh_scp_close p) w))
        × (m_write P (object a) (string text) w
            ≡ outcome P s (reply P (ssh_scp_write p text) w) nil (after P (ssh_scp_write p text) w))
        × (m_pull_request P (object a) w ≡ (
            let rc = reply P (ssh_scp_pull_request p) w in
            outcome P s rc (fixnum rc) (after P (ssh_scp_pull_request p) w)))
        × (m_accept_request P (object a) w
            ≡ outcome P s
                (reply P (ssh_scp_accept_request p) w)
                nil
                (after P (ssh_scp_accept_request p) w))
        × (m_deny_request P (object a) (string reason) w
            ≡ outcome P s
                (reply P (ssh_scp_deny_request p reason) w)
                nil
                (after P (ssh_scp_deny_request p reason) w))
        × (m_request_permissions P (object a) w ≡ (
            let rc = reply P (ssh_scp_request_get_permissions p) w in
            outcome P s rc (fixnum rc) (after P (ssh_scp_request_get_permissions p) w)))
        × (m_push_file P (object a) (string name) (fixnum size) (fixnum mode) w ≡ (
            let c = ssh_scp_push_file64 p name (to_unsigned 64 size) mode in
            outcome P s (reply P c w) nil (after P c w)))
  guarded_transfers text reason name size mode clean clean_name fits =
      let (closing, writing, pull, accept, deny, permissions) =
        single_transfers text reason clean in
      (
        closing,
        writing,
        pull,
        accept,
        deny,
        permissions,
        push_file_lem name size mode clean_name fits,
      )

mode_cases :
    (id : String)
    → ((mode : ScpMode) × (id ≡ mode_name mode)) ⊎ ((mode : ScpMode) → id ≢ mode_name mode)
mode_cases id = elim (Bool-cases (str_eq id "read")) [
  | inl is_read ↦ inl (read_mode, (eq_iff id "read").0 is_read)
  | inr not_read ↦ elim (Bool-cases (str_eq id "write")) [
    | inl is_write ↦ inl (write_mode, (eq_iff id "write").0 is_write)
    | inr not_write ↦ inr (no_mode id not_read not_write)
  ]
]
  where
    no_mode :
        (id : String)
        → str_eq id "read" ≡ false
        → str_eq id "write" ≡ false
        → (mode : ScpMode) → id ≢ mode_name mode
    no_mode id not_read not_write read_mode = λ e. ground (arith, not_read, (eq_iff id "read").1 e)
    no_mode id not_read not_write write_mode =
        λ e. ground (arith, not_write, (eq_iff id "write").1 e)

module _ (P : Platform) where
  initialize-rejected :
      (self kept path : Value) (id : String) (w : World P.State)
      → ((mode : ScpMode) → id ≢ mode_name mode)
      → m_initialize P self kept (symbol id) path w ≡ (raised arg_error, w)
  unfolding m_initialize
  initialize-rejected self kept path id w other =
      ground (arith, eq_iff id "read", eq_iff id "write", other read_mode, other write_mode)

module _ (P : Platform) (a b : ℕ) (p s : Handle) (v : Value) (w : World P.State)
    (here : w.heap a ≡ some (scp p v)) (there : w.heap b ≡ some (session s)) where
  -- One call of `ssh_scp_new`, and the holder with what it gave.
  abbrev pub newly : ScpMode → Bytes → Result Value × World P.State
  newly mode path =
      let c = ssh_scp_new s mode path in
      (
        ok (object a),
        record (after P c w) { heap = update w.heap a (some (scp (reply P c w) (object b))) },
      )

  initialize-mode_name :
      (mode : ScpMode) (path : Bytes)
      → contains path 0 ≡ false
      → m_initialize P (object a) (object b) (symbol (mode_name mode)) (string path) w
        ≡ newly mode path
  unfolding m_initialize new_scp
  initialize-mode_name read_mode path clean = ground arith
  initialize-mode_name write_mode path clean = ground arith

  -- `initialize` of an scp with a session, a symbol and a path with no NUL byte: where the symbol is
  -- the name of a mode, `ssh_scp_new` is called once on the session, and the holder then has what it
  -- gave, NULL included, and the session. With any other symbol an ArgumentError is raised, libssh
  -- is not called and nothing changes.
  pub initialize_lem :
      (id : String) (path : Bytes)
      → contains path 0 ≡ false
      → ((mode : ScpMode) × (id ≡ mode_name mode)
          × (m_initialize P (object a) (object b) (symbol id) (string path) w ≡ newly mode path))
        ⊎ (((mode : ScpMode) → id ≢ mode_name mode)
            × (m_initialize P (object a) (object b) (symbol id) (string path) w
                ≡ (raised arg_error, w)))
  initialize_lem id path clean = elim (mode_cases id) [
    | inl (mode, e) ↦ inl (mode, e, rw e (initialize-mode_name mode path clean))
    | inr other ↦ inr (other, initialize-rejected P (object a) (object b) (string path) id w other)
  ]
