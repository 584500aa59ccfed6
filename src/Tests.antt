-- ===== src/Tests.antt =====
-- Runs on a small machine in the place of libssh: the machine and its states here, the theorems
-- at these states in the children.
pub mod Sessions
pub mod Channels
pub mod Transfers
pub mod Collection
pub mod Registration
pub mod Soundness
pub mod Threads
pub mod Programs
use libssh_ruby.Base.{
  ℕ, suc, ◌+◌, pos, negsuc, true, Bytes, codes, List, [], ◌∷◌, ◌++◌, none, some, ◌==◌,
  if◌then◌else◌,
}
use libssh_ruby.Value.{
  Value, Values, empty, entry, undef, fixnum, object, string, type_error, ok, raised,
}
use libssh_ruby.Libssh.{
  Call, Answer, Platform, Verbosity, none_level, warn, info, debug, trace, ssh_version, ssh_new,
  ssh_free, ssh_disconnect, ssh_connect, ssh_is_connected, ssh_get_publickey, ssh_get_error_code,
  ssh_get_error, ssh_channel_new, ssh_channel_get_session, ssh_channel_read_timeout,
  ssh_channel_read_nonblocking, ssh_scp_new, ssh_scp_free, ssh_scp_request_get_size64,
  ssh_scp_request_get_filename, ssh_scp_request_get_warning, ssh_scp_read, ssh_key_new,
  ssh_key_free, ssh_get_publickey_hash, ssh_clean_pubkey_hash, ssh_key_type_to_char,
}
use libssh_ruby.Runtime.{Holder, session, channel, scp, key, Heap, World, Action, update}
use libssh_ruby.Session.Auth.Methods.{documented_flag}

-- It refuses to connect, and answers all else.
abbrev pub answers : (c : Call) → Answer c
answers (ssh_version v) = some (codes "0.7.0")
answers ssh_new = some 1
answers (ssh_free s) = tt
answers (ssh_connect s) = negsuc 0
answers (ssh_disconnect s) = tt
answers (ssh_is_connected s) = pos 1
answers (ssh_get_publickey s) = (pos 0, some 31)
answers (ssh_get_error_code s) = pos 2
answers (ssh_get_error s) = some (codes "refused")
answers (ssh_channel_new s) = some 10
answers (ssh_channel_get_session c) = some 1
answers (ssh_channel_read_timeout c n err t) = (pos 2, codes "ok")
answers (ssh_channel_read_nonblocking c n err) = (pos 1, codes "x")
answers (ssh_scp_new s mode path) = some 20
answers (ssh_scp_free p) = tt
answers (ssh_scp_request_get_size64 p) = 5
answers (ssh_scp_request_get_filename p) = none
answers (ssh_scp_request_get_warning p) = none
answers (ssh_scp_read p n) = (pos 2, codes "in")
answers ssh_key_new = some 30
answers (ssh_key_free k) = tt
answers (ssh_get_publickey_hash k) = (pos 0, some (codes "hash"))
answers (ssh_clean_pubkey_hash h) = tt
answers (ssh_key_type_to_char t) = some (codes "ssh-rsa")
answers _ = pos 0

abbrev levels : Verbosity → ℕ
levels none_level = 0
levels warn = 1
levels info = 2
levels debug = 3
levels trace = 4

-- The strings of an array with a separator between them.
abbrev pub behind : Values → Bytes → Bytes
behind (entry (string b) vs) sep = sep ++ b ++ behind vs sep
behind _ sep = []

abbrev pub join : Values → Bytes → Bytes
join (entry (string b) vs) sep = b ++ behind vs sep
join _ sep = []

-- The state counts the calls.
abbrev pub machine : Platform
machine = record {
  State = ℕ;
  answer = λ c n. (answers c, n + 1);
  ssh_error = negsuc 0;
  ssh_eof = negsuc 126;
  log_level = λ l. pos (levels l);
  auth_method = documented_flag;
  to_str = λ v. raised type_error;
  to_int = λ v. raised type_error;
  big2ulong = λ v. raised type_error;
  ary_join = λ vs sep. ok (string (join vs sep));
  can_alloc = λ n. true;
}

-- A session, a channel and an scp of it, and a key.
abbrev pub objects : Heap
objects =
    update
      (update
        (update (update (λ a. none) 0 (some (session (some 1)))) 1
          (some (channel (some 10) (object 0))))
        2 (some (scp (some 20) (object 0))))
      3 (some (key (some 30)))

abbrev pub world : World ℕ
world = record { heap = objects; next = 4; buffers = 0; ssh = 0; calls = [] }

-- A block that returns five.
abbrev pub block : Action ℕ Value
block w = (ok (fixnum (pos 5)), w)
