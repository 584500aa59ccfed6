-- ===== src/Channel/Select.antt =====
-- `Channel.select` of ext/libssh_ruby/channel.c.
pub mod Arrays
pub mod Keeps
use libssh_ruby.Base.{ℕ, suc, ◌*◌, ℤ, List, [], ◌∷◌, ◌++◌, length, Option, none, some}
use libssh_ruby.Value.{Value, nil, Values, empty, entry, to_list, Result, ok, and_then}
use libssh_ruby.Libssh.{Handle, Platform, ssh_channel_select}
use libssh_ruby.Runtime.{Action, pure, lift, ◌>>=◌, ◌>>◌, libssh}
use libssh_ruby.Runtime.Api.{check_array, check_fixnum, fix2int, alloc_n, xfree}
use libssh_ruby.Runtime.Objects.{get_channel, load_channel}

module _ (P : Platform) where
  -- The first loop of `set_select_channels`: `Check_TypedStruct` of each entry.
  unfoldable pub check_channels : Values → Action P.State (Unit {0})
  unfolding ◌>>=◌ get_channel
  check_channels empty = pure tt
  check_channels (entry v vs) = get_channel v >>= λ _. check_channels vs

  -- The second loop: the handles of the entries.
  unfoldable pub channel_handles : Values → Action P.State (List Handle)
  unfolding ◌>>=◌ get_channel load_channel
  channel_handles empty = pure []
  channel_handles (entry v vs) = do
    holder ← get_channel v
    (c, _) ← load_channel holder
    rest ← channel_handles vs
    pure (c ∷ rest)

  -- The array for a list that is not empty, with NULL behind its last entry.
  unfoldable pub select_array : Values → Action P.State (Option (List Handle))
  unfolding ◌>>=◌ check_channels channel_handles alloc_n
  select_array empty = pure none
  select_array vs = do
    check_channels vs
    alloc_n (P.can_alloc (8 * suc (length (to_list vs))))
    handles ← channel_handles vs
    pure (some (handles ++ none ∷ []))

  unfoldable pub set_select_channels : Value → Action P.State (Option (List Handle))
  unfolding ◌>>=◌ check_array select_array
  set_select_channels rb_channels = do vs ← lift (check_array rb_channels); select_array vs

  -- `ruby_xfree` does nothing for NULL.
  abbrev pub free_array : Option (List Handle) → Action P.State (Unit {0})
  free_array none = pure tt
  free_array (some _) = xfree

  abbrev pub select_timeout : Value → Result (Option ℤ)
  select_timeout nil = ok none
  select_timeout v = and_then (check_fixnum v) λ _. and_then (fix2int P v) λ sec. ok (some sec)

  -- What `ssh_channel_select` returns, and leaves in the arrays, is not used.
  unfoldable pub s_select : Value → Value → Value → Value → Action P.State Value
  unfolding ◌>>=◌ libssh set_select_channels check_fixnum fix2int xfree
  s_select read_channels write_channels except_channels timeout = do
    sec ← lift (select_timeout timeout)
    read ← set_select_channels read_channels
    write ← set_select_channels write_channels
    except ← set_select_channels except_channels
    libssh P (ssh_channel_select read write except sec)
    free_array read
    free_array write
    free_array except
    pure nil
