-- ===== src/Scp/Transfer.antt =====
-- The transfers of ext/libssh_ruby/scp.c.
use libssh_ruby.Base.{ℕ, ℤ, pos, ◌==ℤ◌, to_unsigned, Bytes, Option, none, some, if◌then◌else◌}
use libssh_ruby.Value.{Value, nil, fixnum, string}
use libssh_ruby.Libssh.{
  Platform, ssh_scp_push_file64, ssh_scp_write, ssh_scp_pull_request, ssh_scp_request_get_size64,
  ssh_scp_request_get_filename, ssh_scp_request_get_permissions, ssh_scp_accept_request,
  ssh_scp_deny_request, ssh_scp_read, ssh_scp_request_get_warning,
}
use libssh_ruby.Runtime.{Action, pure, lift, ◌>>=◌, ◌>>◌, libssh}
use libssh_ruby.Runtime.Api.{
  check_fixnum, check_string, fix2int, num2ulong, string_value_cstr, utf8_str_new, alloc_n, xfree,
}
use libssh_ruby.Runtime.Objects.{get_scp, load_scp}
use libssh_ruby.Scp.{raise_if_error}

-- `rb_str_new_cstr`, or nil for NULL.
abbrev pub string_or_nil : Option Bytes → Value
string_or_nil none = nil
string_or_nil (some text) = string text

module _ (P : Platform) where
  unfoldable pub m_push_file : Value → Value → Value → Value → Action P.State Value
  unfolding ◌>>=◌ libssh get_scp load_scp raise_if_error string_value_cstr num2ulong fix2int
  m_push_file self filename size mode = do
    holder ← get_scp self
    (p, _) ← load_scp holder
    c_filename ← lift (string_value_cstr P filename)
    c_size ← lift (num2ulong P size)
    c_mode ← lift (fix2int P mode)
    rc ← libssh P (ssh_scp_push_file64 p c_filename c_size c_mode)
    raise_if_error P holder rc
    pure nil

  unfoldable pub m_write : Value → Value → Action P.State Value
  unfolding ◌>>=◌ libssh get_scp load_scp raise_if_error check_string
  m_write self text = do
    holder ← get_scp self
    bytes ← lift (check_string text)
    (p, _) ← load_scp holder
    rc ← libssh P (ssh_scp_write p bytes)
    raise_if_error P holder rc
    pure nil

  unfoldable pub m_pull_request : Value → Action P.State Value
  unfolding ◌>>=◌ libssh get_scp load_scp raise_if_error
  m_pull_request self = do
    holder ← get_scp self
    (p, _) ← load_scp holder
    rc ← libssh P (ssh_scp_pull_request p)
    raise_if_error P holder rc
    pure (fixnum rc)

  -- A size beyond the fixnums is a bignum in Ruby; here every size is a number.
  unfoldable pub m_request_size : Value → Action P.State Value
  unfolding ◌>>=◌ libssh get_scp load_scp
  m_request_size self = do
    holder ← get_scp self
    (p, _) ← load_scp holder
    size ← libssh P (ssh_scp_request_get_size64 p)
    pure (fixnum (pos size))

  unfoldable pub m_request_filename : Value → Action P.State Value
  unfolding ◌>>=◌ libssh get_scp load_scp
  m_request_filename self = do
    holder ← get_scp self
    (p, _) ← load_scp holder
    filename ← libssh P (ssh_scp_request_get_filename p)
    pure (string_or_nil filename)

  unfoldable pub m_request_permissions : Value → Action P.State Value
  unfolding ◌>>=◌ libssh get_scp load_scp raise_if_error
  m_request_permissions self = do
    holder ← get_scp self
    (p, _) ← load_scp holder
    mode ← libssh P (ssh_scp_request_get_permissions p)
    raise_if_error P holder mode
    pure (fixnum mode)

  unfoldable pub m_accept_request : Value → Action P.State Value
  unfolding ◌>>=◌ libssh get_scp load_scp raise_if_error
  m_accept_request self = do
    holder ← get_scp self
    (p, _) ← load_scp holder
    rc ← libssh P (ssh_scp_accept_request p)
    raise_if_error P holder rc
    pure nil

  unfoldable pub m_deny_request : Value → Value → Action P.State Value
  unfolding ◌>>=◌ libssh get_scp load_scp raise_if_error string_value_cstr
  m_deny_request self reason = do
    holder ← get_scp self
    (p, _) ← load_scp holder
    text ← lift (string_value_cstr P reason)
    rc ← libssh P (ssh_scp_deny_request p text)
    raise_if_error P holder rc
    pure nil

  -- The buffer is freed before the error is raised.
  unfoldable pub read_failed : ℕ → ℤ → Action P.State Value
  unfolding ◌>>=◌ raise_if_error xfree
  read_failed holder rc = do xfree; raise_if_error P holder rc; pure nil

  unfoldable pub read_done : ℕ → Bytes → ℤ → Action P.State Value
  unfolding ◌>>=◌ utf8_str_new xfree
  read_done size buffer rc = do ret ← lift (utf8_str_new size buffer rc); xfree; pure ret

  unfoldable pub m_read : Value → Value → Action P.State Value
  unfolding ◌>>=◌ libssh get_scp load_scp check_fixnum fix2int alloc_n read_failed read_done
  m_read self size = do
    holder ← get_scp self
    lift (check_fixnum size)
    (p, _) ← load_scp holder
    c_size ← lift (fix2int P size)
    let count = to_unsigned 64 c_size
    alloc_n (P.can_alloc count)
    (rc, buffer) ← libssh P (ssh_scp_read p count)
    if rc ==ℤ P.ssh_error then read_failed holder rc else read_done count buffer rc

  unfoldable pub m_request_warning : Value → Action P.State Value
  unfolding ◌>>=◌ libssh get_scp load_scp
  m_request_warning self = do
    holder ← get_scp self
    (p, _) ← load_scp holder
    warning ← libssh P (ssh_scp_request_get_warning p)
    pure (string_or_nil warning)
