-- ===== src/Init/Constants.antt =====
-- The constants and the IDs that the extension defines, under their documented names.
use libssh_ruby.Base.{
  String, ℤ, Bytes, ◌≡◌, refl, Bool, true, false, Option, none, some, if◌then◌else◌,
}
use libssh_ruby.Value.{Value, fixnum, string}
use libssh_ruby.Libssh.{Platform}
use libssh_ruby.Init.{
  Owner, lib_module, scp_class, key_class, Ident, id_none, id_warn, id_info, id_debug, id_trace,
  id_password, id_publickey, id_hostbased, id_interactive, id_gssapi_mic, id_stderr, id_timeout,
  id_read, id_write, id_code, Header, find, id_name,
}
use libssh_ruby.Init.Dispatch.{loaded, header}

pub data Constant : Type 0 where
  server_known_ok server_known_changed server_found_other server_not_known server_file_not_found
        auth_denied auth_partial auth_success auth_again :
      Constant
  libssh_version_major libssh_version_minor libssh_version_micro libssh_version_int : Constant
  request_newfile request_newdir request_enddir request_warning request_eof : Constant
  keytype_unknown keytype_dss keytype_rsa keytype_rsa1 keytype_ecdsa : Constant
  libssh_version keytype_ed25519 : Constant

abbrev pub constant_owner : Constant → Owner
constant_owner request_newfile = scp_class
constant_owner request_newdir = scp_class
constant_owner request_enddir = scp_class
constant_owner request_warning = scp_class
constant_owner request_eof = scp_class
constant_owner keytype_unknown = key_class
constant_owner keytype_dss = key_class
constant_owner keytype_rsa = key_class
constant_owner keytype_rsa1 = key_class
constant_owner keytype_ecdsa = key_class
constant_owner keytype_ed25519 = key_class
constant_owner _ = lib_module

abbrev pub constant_name : Constant → String
constant_name server_known_ok = "SERVER_KNOWN_OK"
constant_name server_known_changed = "SERVER_KNOWN_CHANGED"
constant_name server_found_other = "SERVER_FOUND_OTHER"
constant_name server_not_known = "SERVER_NOT_KNOWN"
constant_name server_file_not_found = "SERVER_FILE_NOT_FOUND"
constant_name auth_denied = "AUTH_DENIED"
constant_name auth_partial = "AUTH_PARTIAL"
constant_name auth_success = "AUTH_SUCCESS"
constant_name auth_again = "AUTH_AGAIN"
constant_name libssh_version_major = "LIBSSH_VERSION_MAJOR"
constant_name libssh_version_minor = "LIBSSH_VERSION_MINOR"
constant_name libssh_version_micro = "LIBSSH_VERSION_MICRO"
constant_name libssh_version_int = "LIBSSH_VERSION_INT"
constant_name request_newfile = "REQUEST_NEWFILE"
constant_name request_newdir = "REQUEST_NEWDIR"
constant_name request_enddir = "REQUEST_ENDDIR"
constant_name request_warning = "REQUEST_WARNING"
constant_name request_eof = "REQUEST_EOF"
constant_name keytype_unknown = "KEYTYPE_UNKNOWN"
constant_name keytype_dss = "KEYTYPE_DSS"
constant_name keytype_rsa = "KEYTYPE_RSA"
constant_name keytype_rsa1 = "KEYTYPE_RSA1"
constant_name keytype_ecdsa = "KEYTYPE_ECDSA"
constant_name libssh_version = "LIBSSH_VERSION"
constant_name keytype_ed25519 = "KEYTYPE_ED25519"

-- The value of libssh that a constant stands for. That of ED25519 is there if the build found it.
abbrev pub libssh_value : Header → Constant → Option Value
libssh_value H server_known_ok = some (fixnum (H.constant "SSH_SERVER_KNOWN_OK"))
libssh_value H server_known_changed = some (fixnum (H.constant "SSH_SERVER_KNOWN_CHANGED"))
libssh_value H server_found_other = some (fixnum (H.constant "SSH_SERVER_FOUND_OTHER"))
libssh_value H server_not_known = some (fixnum (H.constant "SSH_SERVER_NOT_KNOWN"))
libssh_value H server_file_not_found = some (fixnum (H.constant "SSH_SERVER_FILE_NOT_FOUND"))
libssh_value H auth_denied = some (fixnum (H.constant "SSH_AUTH_DENIED"))
libssh_value H auth_partial = some (fixnum (H.constant "SSH_AUTH_PARTIAL"))
libssh_value H auth_success = some (fixnum (H.constant "SSH_AUTH_SUCCESS"))
libssh_value H auth_again = some (fixnum (H.constant "SSH_AUTH_AGAIN"))
libssh_value H libssh_version_major = some (fixnum (H.constant "LIBSSH_VERSION_MAJOR"))
libssh_value H libssh_version_minor = some (fixnum (H.constant "LIBSSH_VERSION_MINOR"))
libssh_value H libssh_version_micro = some (fixnum (H.constant "LIBSSH_VERSION_MICRO"))
libssh_value H libssh_version_int = some (fixnum (H.constant "LIBSSH_VERSION_INT"))
libssh_value H request_newfile = some (fixnum (H.constant "SSH_SCP_REQUEST_NEWFILE"))
libssh_value H request_newdir = some (fixnum (H.constant "SSH_SCP_REQUEST_NEWDIR"))
libssh_value H request_enddir = some (fixnum (H.constant "SSH_SCP_REQUEST_ENDDIR"))
libssh_value H request_warning = some (fixnum (H.constant "SSH_SCP_REQUEST_WARNING"))
libssh_value H request_eof = some (fixnum (H.constant "SSH_SCP_REQUEST_EOF"))
libssh_value H keytype_unknown = some (fixnum (H.constant "SSH_KEYTYPE_UNKNOWN"))
libssh_value H keytype_dss = some (fixnum (H.constant "SSH_KEYTYPE_DSS"))
libssh_value H keytype_rsa = some (fixnum (H.constant "SSH_KEYTYPE_RSA"))
libssh_value H keytype_rsa1 = some (fixnum (H.constant "SSH_KEYTYPE_RSA1"))
libssh_value H keytype_ecdsa = some (fixnum (H.constant "SSH_KEYTYPE_ECDSA"))
libssh_value H libssh_version = some (string H.version)
libssh_value H keytype_ed25519 =
    if H.has_ed25519 then some (fixnum (H.constant "SSH_KEYTYPE_ED25519")) else none

abbrev pub documented_id : Ident → String
documented_id id_none = "none"
documented_id id_warn = "warn"
documented_id id_info = "info"
documented_id id_debug = "debug"
documented_id id_trace = "trace"
documented_id id_password = "password"
documented_id id_publickey = "publickey"
documented_id id_hostbased = "hostbased"
documented_id id_interactive = "interactive"
documented_id id_gssapi_mic = "gssapi_mic"
documented_id id_stderr = "stderr"
documented_id id_timeout = "timeout"
documented_id id_read = "read"
documented_id id_write = "write"
documented_id id_code = "@code"

module _ (P : Platform) (H : Header) where
  -- The value of a constant once the extension is loaded.
  unfoldable pub constant_value : Owner → String → Option Value
  unfolding loaded
  constant_value o name = elim (loaded P H) [ none ↦ none | some r ↦ find o name r.constants ]

  -- The name of an ID once the extension is loaded.
  unfoldable pub interned : Ident → Option String
  unfolding loaded
  interned i = elim (loaded P H) [ none ↦ none | some r ↦ id_name i r.ids ]

module _ (P : Platform) (constant : String → ℤ) (version : Bytes) where
  constant_case :
      (ed : Bool) (c : Constant)
      → constant_value P (header P constant version ed) (constant_owner c) (constant_name c)
        ≡ libssh_value (header P constant version ed) c
  unfolding constant_value
  constant_case true auth_again = refl
  constant_case true _ = refl
  constant_case false auth_again = refl
  constant_case false _ = refl

  id_case :
      (ed : Bool) (i : Ident) → interned P (header P constant version ed) i ≡ some (documented_id i)
  unfolding interned
  id_case true id_code = refl
  id_case true _ = refl
  id_case false id_code = refl
  id_case false _ = refl

-- Once the extension is loaded, each documented constant has the value of libssh that it stands
-- for, `KEYTYPE_ED25519` being there only if the build found it, and each variable of an ID holds
-- the ID of its name.
pub constants_lem :
    (P : Platform) (H : Header) (c : Constant) (i : Ident)
    → (constant_value P H (constant_owner c) (constant_name c) ≡ libssh_value H c)
      × (interned P H i ≡ some (documented_id i))
constants_lem P H c i = (
  constant_case P H.constant H.version H.has_ed25519 c,
  id_case P H.constant H.version H.has_ed25519 i,
)
