-- ===== src/Scp.antt =====
-- The holder of an scp in ext/libssh_ruby/scp.c: creation, release, errors, opening and closing.
pub mod Transfer
pub mod Guarded
pub mod Bracket
pub mod Keeps
pub mod Buffers
pub mod Script
pub mod Sequence
use libssh_ruby.Base.{ℕ, String, ℤ, ◌==ℤ◌, Bytes, none, some, str_eq, Option, if◌then◌else◌}
use libssh_ruby.Value.{Value, undef, nil, Exception, arg_error, Result, ok, raised}
use libssh_ruby.Libssh.{
  Handle, Platform, ScpMode, read_mode, write_mode, ssh_scp_new, ssh_scp_free, ssh_scp_close,
  ssh_scp_init,
}
use libssh_ruby.Runtime.{scp, Action, pure, lift, ◌>>=◌, ◌>>◌, libssh}
use libssh_ruby.Runtime.Api.{check_symbol, string_value_cstr, ensure}
use libssh_ruby.Runtime.Objects.{
  get_session, load_session, get_scp, load_scp, store, wrap_struct, free_holder,
}
use libssh_ruby.Error.{libssh_ruby_raise}

-- The tests on the mode's ID.
abbrev pub scp_mode : String → Result ScpMode
scp_mode id =
    if str_eq id "read"
    then ok read_mode
    else if str_eq id "write"
    then ok write_mode
    else raised arg_error

module _ (P : Platform) where
  unfoldable pub scp_alloc : Action P.State Value
  unfolding wrap_struct
  scp_alloc = wrap_struct (scp none undef)

  abbrev free_scp : Handle → Action P.State (Unit {0})
  free_scp none = pure tt
  free_scp (some p) = libssh P (ssh_scp_free (some p))

  -- The argument is the holder.
  unfoldable pub scp_free : ℕ → Action P.State (Unit {0})
  unfolding ◌>>=◌ libssh load_scp free_holder
  scp_free holder = do (p, _) ← load_scp holder; free_scp p; free_holder holder

  -- `initialize` after its arguments are converted.
  unfoldable pub new_scp : Value → Value → ScpMode → Bytes → Action P.State Value
  unfolding ◌>>=◌ libssh get_session load_session get_scp store
  new_scp self session c_mode c_path = do
    holder ← get_scp self
    session_holder ← get_session session
    s ← load_session session_holder
    p ← libssh P (ssh_scp_new s c_mode c_path)
    store holder (scp p session)
    pure self

  unfoldable pub m_initialize : Value → Value → Value → Value → Action P.State Value
  unfolding ◌>>=◌ new_scp check_symbol string_value_cstr
  m_initialize self session mode path = do
    id ← lift (check_symbol mode)
    c_mode ← lift (scp_mode id)
    c_path ← lift (string_value_cstr P path)
    new_scp self session c_mode c_path

  -- The macro `RAISE_IF_ERROR` of scp.c: the session is that of the holder's value.
  unfoldable pub raise_if_error : ℕ → ℤ → Action P.State (Unit {0})
  unfolding ◌>>=◌ load_scp get_session load_session libssh_ruby_raise
  raise_if_error holder rc =
      if rc ==ℤ P.ssh_error
      then (do
        (_, session) ← load_scp holder
        session_holder ← get_session session
        s ← load_session session_holder
        libssh_ruby_raise P s)
      else pure tt

  unfoldable pub m_close : Value → Action P.State Value
  unfolding ◌>>=◌ libssh get_scp load_scp raise_if_error
  m_close self = do
    holder ← get_scp self
    (p, _) ← load_scp holder
    rc ← libssh P (ssh_scp_close p)
    raise_if_error holder rc
    pure nil

  -- The first argument is the block; without one `rb_yield` raises.
  unfoldable pub m_init : Action P.State Value → Value → Action P.State Value
  unfolding ◌>>=◌ libssh get_scp load_scp raise_if_error m_close ensure
  m_init block self = do
    holder ← get_scp self
    (p, _) ← load_scp holder
    rc ← libssh P (ssh_scp_init p)
    raise_if_error holder rc
    ensure block (m_close self)
