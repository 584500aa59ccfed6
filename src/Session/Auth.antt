-- ===== src/Session/Auth.antt =====
-- Authentication in ext/libssh_ruby/session.c.
pub mod Methods
use libssh_ruby.Base.{ℕ, String, ℤ, to_unsigned, bit_and, ◌==◌, if◌then◌else◌}
use libssh_ruby.Value.{Value, fixnum, symbol, array, Values, empty, entry}
use libssh_ruby.Libssh.{
  Platform, AuthMethod, none_method, password, publickey, hostbased, interactive, gssapi_mic,
  ssh_userauth_none, ssh_userauth_password, ssh_userauth_list, ssh_userauth_publickey_auto,
}
use libssh_ruby.Runtime.{Action, pure, lift, ◌>>=◌, ◌>>◌, libssh}
use libssh_ruby.Runtime.Api.{string_value_cstr}
use libssh_ruby.Runtime.Objects.{get_session, load_session}
use libssh_ruby.Session.{raise_if_error}

-- `if (list & method) rb_ary_push(ary, ID2SYM(id));`, with the pushes that follow.
abbrev push_if : ℤ → ℕ → String → Values → Values
push_if list method id rest =
    if bit_and (to_unsigned 32 list) method == 0 then rest else entry (symbol id) rest

module _ (P : Platform) where
  unfoldable pub m_userauth_none : Value → Action P.State Value
  unfolding ◌>>=◌ libssh get_session load_session raise_if_error
  m_userauth_none self = do
    holder ← get_session self
    s ← load_session holder
    rc ← libssh P (ssh_userauth_none s)
    raise_if_error P holder rc
    pure (fixnum rc)

  unfoldable pub m_userauth_password : Value → Value → Action P.State Value
  unfolding ◌>>=◌ libssh get_session load_session raise_if_error string_value_cstr
  m_userauth_password self secret = do
    holder ← get_session self
    s ← load_session holder
    text ← lift (string_value_cstr P secret)
    rc ← libssh P (ssh_userauth_password s text)
    raise_if_error P holder rc
    pure (fixnum rc)

  -- The array that `userauth_list` builds from the bits of `list`.
  unfoldable pub method_symbols : ℤ → Values
  method_symbols list = push_if list (P.auth_method none_method) "none" (
      push_if list (P.auth_method password) "password" (
        push_if list (P.auth_method publickey) "publickey" (
          push_if list (P.auth_method hostbased) "hostbased" (
            push_if list (P.auth_method interactive) "interactive"
              (push_if list (P.auth_method gssapi_mic) "gssapi_mic" empty)))))

  unfoldable pub m_userauth_list : Value → Action P.State Value
  unfolding ◌>>=◌ libssh get_session load_session raise_if_error
  m_userauth_list self = do
    holder ← get_session self
    s ← load_session holder
    list ← libssh P (ssh_userauth_list s)
    raise_if_error P holder list
    pure (array (method_symbols list))

  unfoldable pub m_userauth_publickey_auto : Value → Action P.State Value
  unfolding ◌>>=◌ libssh get_session load_session raise_if_error
  m_userauth_publickey_auto self = do
    holder ← get_session self
    s ← load_session holder
    rc ← libssh P (ssh_userauth_publickey_auto s)
    raise_if_error P holder rc
    pure (fixnum rc)
