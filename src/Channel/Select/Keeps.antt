-- ===== src/Channel/Select/Keeps.antt =====
-- What every state keeps also holds behind `Channel.select`, where it says nothing of the buffers.
use libssh_ruby.Base.{List, [], Option, none, some}
use libssh_ruby.Value.{Value, Values, empty, entry}
use libssh_ruby.Libssh.{Platform, Handle}
use libssh_ruby.Runtime.{World}
use libssh_ruby.Runtime.Objects.{get_channel}
use libssh_ruby.Runtime.Keeps.{
  Keeps, Stable, Unbuffered, Keeps-pure, Keeps-bind, Keeps-get_channel, Keeps-alloc_n, Keeps-xfree,
  keeps_rules,
}
use libssh_ruby.Channel.Select.{
  check_channels, channel_handles, select_array, set_select_channels, free_array, s_select,
}

module _ (P : Platform) (I : World P.State → Type 0) (stable : Stable P I)
    (unbuffered : Unbuffered I) where
  check_channels-Keeps : (vs : Values) → Keeps I (check_channels P vs)
  unfolding check_channels
  check_channels-Keeps empty = Keeps-pure tt
  check_channels-Keeps (entry v vs) =
      Keeps-bind (get_channel v) _ (Keeps-get_channel v) λ _. check_channels-Keeps vs

  channel_handles-Keeps : (vs : Values) → Keeps I (channel_handles P vs)
  unfolding channel_handles
  channel_handles-Keeps empty = Keeps-pure []
  channel_handles-Keeps (entry v vs) =
      let rest = channel_handles-Keeps vs in search keeps_rules depth 10

  select_array-Keeps : (vs : Values) → Keeps I (select_array P vs)
  unfolding select_array
  select_array-Keeps empty = Keeps-pure none
  select_array-Keeps (entry v vs) =
      let checked = check_channels-Keeps (entry v vs) in
      let handles = channel_handles-Keeps (entry v vs) in
      search (keeps_rules, Keeps-alloc_n) depth 12

  set_select_channels-Keeps : (v : Value) → Keeps I (set_select_channels P v)
  unfolding set_select_channels
  set_select_channels-Keeps v = search (keeps_rules, select_array-Keeps) depth 10

  free_array-Keeps : (o : Option (List Handle)) → Keeps I (free_array P o)
  free_array-Keeps none = Keeps-pure tt
  free_array-Keeps (some hs) = Keeps-xfree unbuffered

  pub s_select-Keeps :
      (read write except timeout : Value) → Keeps I (s_select P read write except timeout)
  unfolding s_select
  s_select-Keeps read write except timeout =
      search (keeps_rules, set_select_channels-Keeps, free_array-Keeps) depth 30
