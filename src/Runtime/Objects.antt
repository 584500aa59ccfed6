-- ===== src/Runtime/Objects.antt =====
-- `TypedData_Get_Struct` and `TypedData_Wrap_Struct` on the holders, and reads and writes of a
-- holder's fields. A pointer to a holder is the object's address.
use libssh_ruby.Base.{ℕ, suc, Option, none, some}
use libssh_ruby.Value.{Value, object, type_error, Result, ok, raised, fault}
use libssh_ruby.Libssh.{Handle}
use libssh_ruby.Runtime.{Holder, session, key, channel, scp, Action, update}

abbrev session_at : ℕ → Option Holder → Result ℕ
session_at a (some (session h)) = ok a
session_at a (some _) = raised type_error
session_at a none = fault

abbrev key_at : ℕ → Option Holder → Result ℕ
key_at a (some (key h)) = ok a
key_at a (some _) = raised type_error
key_at a none = fault

abbrev pub channel_at : ℕ → Option Holder → Result ℕ
channel_at a (some (channel h v)) = ok a
channel_at a (some _) = raised type_error
channel_at a none = fault

abbrev scp_at : ℕ → Option Holder → Result ℕ
scp_at a (some (scp h v)) = ok a
scp_at a (some _) = raised type_error
scp_at a none = fault

abbrev session_field : Option Holder → Result Handle
session_field (some (session h)) = ok h
session_field _ = fault

abbrev key_field : Option Holder → Result Handle
key_field (some (key h)) = ok h
key_field _ = fault

abbrev channel_field : Option Holder → Result (Handle × Value)
channel_field (some (channel h v)) = ok (h, v)
channel_field _ = fault

abbrev scp_field : Option Holder → Result (Handle × Value)
scp_field (some (scp h v)) = ok (h, v)
scp_field _ = fault

module _ {S : Type 0} where
  -- `TypedData_Get_Struct` of the class's type: the holder, or a TypeError.
  abbrev get_struct : (ℕ → Option Holder → Result ℕ) → Value → Action S ℕ
  get_struct at (object a) w = (at a (w.heap a), w)
  get_struct at _ w = (raised type_error, w)

  unfoldable pub get_session : Value → Action S ℕ
  get_session = get_struct session_at

  unfoldable pub get_key : Value → Action S ℕ
  get_key = get_struct key_at

  unfoldable pub get_channel : Value → Action S ℕ
  get_channel = get_struct channel_at

  unfoldable pub get_scp : Value → Action S ℕ
  get_scp = get_struct scp_at

  -- `holder->session`, `holder->key`, `holder->channel` and `holder->scp`.
  unfoldable pub load_session : ℕ → Action S Handle
  load_session a w = (session_field (w.heap a), w)

  unfoldable pub load_key : ℕ → Action S Handle
  load_key a w = (key_field (w.heap a), w)

  -- The handle and the value of the session.
  unfoldable pub load_channel : ℕ → Action S (Handle × Value)
  load_channel a w = (channel_field (w.heap a), w)

  unfoldable pub load_scp : ℕ → Action S (Handle × Value)
  load_scp a w = (scp_field (w.heap a), w)

  -- An assignment to the fields of a holder.
  unfoldable pub store : ℕ → Holder → Action S (Unit {0})
  store a h w = (ok tt, record w { heap = update w.heap a (some h) })

  -- `TypedData_Wrap_Struct` of a new holder.
  unfoldable pub wrap_struct : Holder → Action S Value
  wrap_struct h w =
      (ok (object w.next), record w { heap = update w.heap w.next (some h); next = suc w.next })

  -- `ruby_xfree(holder)` in a free function.
  unfoldable pub free_holder : ℕ → Action S (Unit {0})
  free_holder a w = (ok tt, record w { heap = update w.heap a none })
