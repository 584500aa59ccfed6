-- ===== src/Key.antt =====
-- ext/libssh_ruby/key.c
pub mod Laws
use libssh_ruby.Base.{ℕ, ℤ, pos, ◌==ℤ◌, Bytes, Option, none, some, if◌then◌else◌}
use libssh_ruby.Value.{Value, object, fixnum, string, true_value, false_value, Result, ok, fault}
use libssh_ruby.Libssh.{
  Handle, Platform, ssh_key_new, ssh_key_free, ssh_key_type, ssh_key_type_to_char,
  ssh_key_is_public, ssh_key_is_private, ssh_get_publickey_hash, ssh_clean_pubkey_hash, Call,
}
use libssh_ruby.Runtime.{key, Action, pure, lift, ◌>>=◌, ◌>>◌, libssh}
use libssh_ruby.Runtime.Api.{str_new_cstr}
use libssh_ruby.Runtime.Objects.{get_key, load_key, store, wrap_struct, free_holder}

-- `c ? Qtrue : Qfalse`
abbrev pub truth : ℤ → Value
truth c = if c ==ℤ pos 0 then false_value else true_value

-- A local variable that is read: undefined behaviour unless it was set.
abbrev read_local {ℓ} : {A : Type ℓ} → Option A → Result A
read_local none = fault
read_local (some a) = ok a

module _ (P : Platform) where
  unfoldable pub key_alloc : Action P.State Value
  unfolding wrap_struct
  key_alloc = wrap_struct (key none)

  abbrev free_key : Handle → Action P.State (Unit {0})
  free_key none = pure tt
  free_key (some k) = libssh P (ssh_key_free (some k))

  -- The argument is the holder.
  unfoldable pub key_free : ℕ → Action P.State (Unit {0})
  unfolding ◌>>=◌ libssh load_key free_holder
  key_free holder = do k ← load_key holder; free_key k; free_holder holder

  unfoldable pub m_initialize : Value → Action P.State Value
  unfolding ◌>>=◌ libssh get_key store
  m_initialize self = do
    holder ← get_key self
    k ← libssh P ssh_key_new
    store holder (key k)
    pure self

  -- The return code of `ssh_get_publickey_hash` is not looked at.
  unfoldable pub m_sha1 : Value → Action P.State Value
  unfolding ◌>>=◌ libssh get_key load_key
  m_sha1 self = do
    holder ← get_key self
    k ← load_key holder
    (rc, out) ← libssh P (ssh_get_publickey_hash k)
    c_hash ← lift (read_local out)
    libssh P (ssh_clean_pubkey_hash c_hash)
    pure (string c_hash)

  unfoldable pub m_type : Value → Action P.State Value
  unfolding ◌>>=◌ libssh get_key load_key
  m_type self = do
    holder ← get_key self
    k ← load_key holder
    type ← libssh P (ssh_key_type k)
    pure (fixnum type)

  unfoldable pub m_type_str : Value → Action P.State Value
  unfolding ◌>>=◌ libssh get_key load_key str_new_cstr
  m_type_str self = do
    holder ← get_key self
    k ← load_key holder
    type ← libssh P (ssh_key_type k)
    name ← libssh P (ssh_key_type_to_char type)
    lift (str_new_cstr name)

  unfoldable pub m_public_p : Value → Action P.State Value
  unfolding ◌>>=◌ libssh get_key load_key
  m_public_p self = do
    holder ← get_key self
    k ← load_key holder
    c ← libssh P (ssh_key_is_public k)
    pure (truth c)

  unfoldable pub m_private_p : Value → Action P.State Value
  unfolding ◌>>=◌ libssh get_key load_key
  m_private_p self = do
    holder ← get_key self
    k ← load_key holder
    c ← libssh P (ssh_key_is_private k)
    pure (truth c)
