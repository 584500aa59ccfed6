-- ===== src/Threads/Scps.antt =====
-- The functions of ext/libssh_ruby/scp.c that release Ruby's lock.
use libssh_ruby.Base.{◌==ℤ◌, to_unsigned, if◌then◌else◌}
use libssh_ruby.Value.{Value, nil, fixnum}
use libssh_ruby.Libssh.{
  Platform, ssh_scp_close, ssh_scp_init, ssh_scp_push_file64, ssh_scp_write, ssh_scp_pull_request,
  ssh_scp_accept_request, ssh_scp_deny_request, ssh_scp_read,
}
use libssh_ruby.Runtime.{Action, pure, lift, ◌>>=◌, ◌>>◌}
use libssh_ruby.Runtime.Api.{
  check_fixnum, check_string, fix2int, num2ulong, string_value_cstr, alloc_n, ensure,
}
use libssh_ruby.Runtime.Objects.{get_scp, load_scp}
use libssh_ruby.Scp.{raise_if_error}
use libssh_ruby.Scp.Transfer.{read_failed, read_done}
use libssh_ruby.Threads.{Suspended}

module _ (P : Platform) where
  unfoldable pub enter_scp_close : Value → Action P.State (Suspended P)
  unfolding ◌>>=◌ get_scp load_scp raise_if_error
  enter_scp_close self = do
    holder ← get_scp self
    (p, _) ← load_scp holder
    pure (ssh_scp_close p, λ rc. raise_if_error P holder rc >> pure nil)

  -- The first argument closes the scp behind the block.
  unfoldable pub enter_init :
      Action P.State Value → Action P.State Value → Value → Action P.State (Suspended P)
  unfolding ◌>>=◌ get_scp load_scp raise_if_error ensure
  enter_init closing block self = do
    holder ← get_scp self
    (p, _) ← load_scp holder
    pure (ssh_scp_init p, λ rc. raise_if_error P holder rc >> ensure block closing)

  unfoldable pub enter_push_file : Value → Value → Value → Value → Action P.State (Suspended P)
  unfolding ◌>>=◌ get_scp load_scp raise_if_error string_value_cstr num2ulong fix2int
  enter_push_file self filename size mode = do
    holder ← get_scp self
    (p, _) ← load_scp holder
    c_filename ← lift (string_value_cstr P filename)
    c_size ← lift (num2ulong P size)
    c_mode ← lift (fix2int P mode)
    pure (
      ssh_scp_push_file64 p c_filename c_size c_mode,
      λ rc. raise_if_error P holder rc >> pure nil,
    )

  unfoldable pub enter_scp_write : Value → Value → Action P.State (Suspended P)
  unfolding ◌>>=◌ get_scp load_scp raise_if_error check_string
  enter_scp_write self text = do
    holder ← get_scp self
    bytes ← lift (check_string text)
    (p, _) ← load_scp holder
    pure (ssh_scp_write p bytes, λ rc. raise_if_error P holder rc >> pure nil)

  unfoldable pub enter_pull_request : Value → Action P.State (Suspended P)
  unfolding ◌>>=◌ get_scp load_scp raise_if_error
  enter_pull_request self = do
    holder ← get_scp self
    (p, _) ← load_scp holder
    pure (ssh_scp_pull_request p, λ rc. raise_if_error P holder rc >> pure (fixnum rc))

  unfoldable pub enter_accept_request : Value → Action P.State (Suspended P)
  unfolding ◌>>=◌ get_scp load_scp raise_if_error
  enter_accept_request self = do
    holder ← get_scp self
    (p, _) ← load_scp holder
    pure (ssh_scp_accept_request p, λ rc. raise_if_error P holder rc >> pure nil)

  unfoldable pub enter_deny_request : Value → Value → Action P.State (Suspended P)
  unfolding ◌>>=◌ get_scp load_scp raise_if_error string_value_cstr
  enter_deny_request self reason = do
    holder ← get_scp self
    (p, _) ← load_scp holder
    text ← lift (string_value_cstr P reason)
    pure (ssh_scp_deny_request p text, λ rc. raise_if_error P holder rc >> pure nil)

  unfoldable pub enter_scp_read : Value → Value → Action P.State (Suspended P)
  unfolding ◌>>=◌ get_scp load_scp check_fixnum fix2int alloc_n read_failed read_done
  enter_scp_read self size = do
    holder ← get_scp self
    lift (check_fixnum size)
    (p, _) ← load_scp holder
    c_size ← lift (fix2int P size)
    let count = to_unsigned 64 c_size
    alloc_n (P.can_alloc count)
    pure (
      ssh_scp_read p count,
      λ (rc, buffer).
          if rc ==ℤ P.ssh_error then read_failed P holder rc else read_done P count buffer rc,
    )
