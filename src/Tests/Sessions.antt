-- ===== src/Tests/Sessions.antt =====
-- The theorems on sessions and keys at concrete states.
use libssh_ruby.Base.{
  pos, negsuc, ◌≢◌, ◌≡◌, ◌⊎◌, refl, ap, codes, Bytes, List, none, some, [], ◌∷◌, ◌++◌, arith,
  String,
}
use libssh_ruby.Value.{
  nil, fixnum, symbol, string, object, array, Values, empty, entry, arg_error, range_error,
  libssh_error, ok, raised,
}
use libssh_ruby.Libssh.{
  Call, Answer, Platform, ssh_version, OptionType, int, str, Verbosity, ssh_options_set,
  ssh_connect, ssh_get_error, ssh_get_error_code, ssh_get_publickey_hash, ssh_get_publickey,
  ssh_clean_pubkey_hash,
}
use libssh_ruby.Runtime.{key, update}
use libssh_ruby.Runtime.Trace.{after}
use libssh_ruby.Error.{m_version}
use libssh_ruby.Error.Outcome.{outcome}
use libssh_ruby.Error.Version.{version_lem}
use libssh_ruby.Key.{m_sha1}
use libssh_ruby.Key.Laws.{sha1_lem, get_publickey_lem}
use libssh_ruby.Session.Connection.{m_connect, m_get_publickey}
use libssh_ruby.Session.Auth.{method_symbols}
use libssh_ruby.Session.Auth.Methods.{flags_of, flags_of-method_symbols}
use libssh_ruby.Session.Guarded.{guarded_calls}
use libssh_ruby.Session.Options.{
  m_set_protocol, m_set_log_verbosity, m_set_port, m_set_host, m_set_hostkeys,
}
use libssh_ruby.Session.Options.Protocol.{set_protocol_lem}
use libssh_ruby.Session.Options.Ranges.{
  level_name, set_to, set_log_verbosity_lem, number_options, string_options,
}
use libssh_ruby.Session.Options.Texts.{strings, behind_commas, joined, text_options}
use libssh_ruby.Tests.{machine, world, behind, answers}

-- A refused connection, as the caller sees it.
connect_refused : m_connect machine (object 0) world ≡ (
  raised (libssh_error (pos 2) (string (codes "refused"))),
  record world {
    ssh = 3;
    calls = ssh_get_error (some 1) ∷ ssh_get_error_code (some 1) ∷ ssh_connect (some 1) ∷ [];
  },
)
unfolding m_connect
connect_refused = refl

guarded_calls_example :
    m_connect machine (object 0) world
    ≡ outcome machine (some 1) (negsuc 0) nil (after machine (ssh_connect (some 1)) world)
guarded_calls_example = (guarded_calls machine 0 (some 1) world refl (codes "pw") refl).0

abbrev both_protocols : Values
both_protocols = entry (fixnum (pos 2)) (entry (fixnum (pos 1)) (entry (fixnum (pos 2)) empty))

set_protocol_lem_example : m_set_protocol machine (object 0) (array both_protocols) world ≡ (
  ok nil,
  after machine
      (ssh_options_set (some 1) OptionType.ssh2 (int (pos 1)))
      (after machine (ssh_options_set (some 1) OptionType.ssh1 (int (pos 1))) world),
)
set_protocol_lem_example = set_protocol_lem machine 0 (some 1) both_protocols world refl

flags_of-method_symbols_example :
    (method_symbols machine (pos 70) ≡ entry (symbol "password") (entry (symbol "publickey") empty))
    × (flags_of (method_symbols machine (pos 70)) ≡ 6)
flags_of-method_symbols_example = flags_of-method_symbols machine (pos 70) (λ m. refl)

set_log_verbosity_lem_example :
    ((l : Verbosity) × ◌≡◌ {A = String} "trace" (level_name l)
      × (m_set_log_verbosity machine (object 0) (symbol "trace") world
          ≡ set_to machine 0
              (some 1)
              world
              refl
              OptionType.log_verbosity
              (int (machine.log_level l))))
    ⊎ (((l : Verbosity) → ◌≢◌ {A = String} "trace" (level_name l))
        × (m_set_log_verbosity machine (object 0) (symbol "trace") world
            ≡ (raised arg_error, world)))
set_log_verbosity_lem_example = set_log_verbosity_lem machine 0 (some 1) world refl "trace"

number_options_example :
    m_set_port machine (object 0) (fixnum (pos 4294967318)) world ≡ (raised range_error, world)
number_options_example = (number_options machine 0 (some 1) world refl (fixnum (pos 4294967318))).0

string_options_example :
    m_set_host machine (object 0) (string (0 ∷ [])) world ≡ (raised arg_error, world)
string_options_example = (string_options machine 0 (some 1) world refl (0 ∷ [])).0

sha1_lem_example : m_sha1 machine (object 3) world ≡ (
  ok (string (codes "hash")),
  after machine
      (ssh_clean_pubkey_hash (codes "hash"))
      (after machine (ssh_get_publickey_hash (some 30)) world),
)
sha1_lem_example = sha1_lem machine 3 (some 30) world refl

get_publickey_lem_example : m_get_publickey machine (object 0) world ≡ (
  ok (object 4),
  record (after machine (ssh_get_publickey (some 1)) world) {
    heap = update world.heap 4 (some (key (some 31)));
    next = 5;
  },
)
get_publickey_lem_example = get_publickey_lem machine 0 (some 1) world refl (omega arith)

behind_machine : (bs : List Bytes) → behind (strings bs) (codes ",") ≡ behind_commas bs
behind_machine [] = refl
behind_machine (b ∷ bs) = ap (λ rest. codes "," ++ b ++ rest) (behind_machine bs)

join_machine :
    (bs : List Bytes) → machine.ary_join (strings bs) (codes ",") ≡ ok (string (joined bs))
join_machine [] = refl
join_machine (b ∷ bs) = ap (λ rest. ok (string (b ++ rest))) (behind_machine bs)

text_options_example :
    m_set_hostkeys machine
      (object 0)
      (array (strings (codes "ssh-rsa" ∷ codes "ssh-dss" ∷ [])))
      world
    ≡ set_to machine 0 (some 1) world refl OptionType.hostkeys (str (codes "ssh-rsa,ssh-dss"))
text_options_example =
    (text_options machine 0 (some 1) world refl (codes "ssh-rsa" ∷ codes "ssh-dss" ∷ [])
      (codes "~/.ssh/config") join_machine refl).1

-- A libssh that answers NULL to every version.
abbrev old_answers : (c : Call) → Answer c
old_answers (ssh_version v) = none
old_answers c = answers c

abbrev old : Platform
old = record machine { answer = λ c n. (old_answers c, n) }

version_lem_example :
    m_version old (fixnum (pos 1000000) ∷ []) world
    ≡ (raised arg_error, after old (ssh_version (pos 1000000)) world)
version_lem_example = (version_lem old world (pos 1000000) refl).2
