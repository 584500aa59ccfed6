-- ===== src/Gc/Types.antt =====
-- The `rb_data_type_t` of the four classes.
use libssh_ruby.Base.{ℕ, String, Bool, true, false, ◌+◌, List, [], ◌∷◌}
use libssh_ruby.Runtime.{Holder, session, key, channel, scp}

-- `RUBY_TYPED_WB_PROTECTED` and `RUBY_TYPED_FREE_IMMEDIATELY`.
pub data TypeFlag : Type 0 where
  wb_protected free_immediately : TypeFlag

-- The name, the size that the function `memsize` gives, on a machine with pointers of 8 bytes, and
-- the flags. The mark and the free functions are those of the class.
pub record DataType : Type 0 where
  pub name : String
  pub memsize : ℕ
  pub flags : List TypeFlag

abbrev pointer_size : ℕ
pointer_size = 8

abbrev pub session_memsize : ℕ
session_memsize = pointer_size

abbrev pub key_memsize : ℕ
key_memsize = pointer_size

-- The pointer and the value of the session.
abbrev pub channel_memsize : ℕ
channel_memsize = pointer_size + pointer_size

abbrev pub scp_memsize : ℕ
scp_memsize = pointer_size + pointer_size

abbrev pub session_type : DataType
session_type = record {
  name = "ssh_session";
  memsize = session_memsize;
  flags = wb_protected ∷ free_immediately ∷ [];
}

abbrev pub channel_type : DataType
channel_type = record {
  name = "ssh_channel";
  memsize = channel_memsize;
  flags = wb_protected ∷ free_immediately ∷ [];
}

abbrev pub scp_type : DataType
scp_type = record {
  name = "ssh_scp";
  memsize = scp_memsize;
  flags = wb_protected ∷ free_immediately ∷ [];
}

abbrev pub key_type : DataType
key_type = record {
  name = "ssh_key";
  memsize = key_memsize;
  flags = wb_protected ∷ free_immediately ∷ [];
}

abbrev pub type_of : Holder → DataType
type_of (session s) = session_type
type_of (channel c v) = channel_type
type_of (scp p v) = scp_type
type_of (key k) = key_type

abbrev pub is_protected : List TypeFlag → Bool
is_protected [] = false
is_protected (wb_protected ∷ flags) = true
is_protected (free_immediately ∷ flags) = is_protected flags
