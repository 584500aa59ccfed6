-- ===== src/Sound/Keys.antt =====
-- The methods of a key but `sha1`, and those that open a channel without a block.
use libssh_ruby.Base.{ℕ, ◌≢◌, none, arith}
use libssh_ruby.Value.{Value, object, fault}
use libssh_ruby.Libssh.{Platform}
use libssh_ruby.Runtime.{World}
use libssh_ruby.Key.{m_initialize, m_type, m_type_str, m_public_p, m_private_p}
use libssh_ruby.Channel.Requests.{m_open_session, m_open_forward}
use libssh_ruby.Methods.{KeyMethod, run_key}
use libssh_ruby.Sound.{Honest}

-- `sha1` reads a variable that may not be set.
abbrev pub Plain : KeyMethod → Type 0
Plain KeyMethod.sha1 = ⊥
Plain _ = Unit

module _ (P : Platform) (honest : Honest P) (a : ℕ) (w : World P.State)
    (here : w.heap a ≢ none) where
  initialize_sound : (m_initialize P (object a) w).0 ≢ fault
  unfolding m_initialize
  initialize_sound = ground arith

  type_sound : (m_type P (object a) w).0 ≢ fault
  unfolding m_type
  type_sound = ground arith

  type_str_sound : (m_type_str P (object a) w).0 ≢ fault
  unfolding m_type_str
  type_str_sound = ground arith

  public_p_sound : (m_public_p P (object a) w).0 ≢ fault
  unfolding m_public_p
  public_p_sound = ground arith

  private_p_sound : (m_private_p P (object a) w).0 ≢ fault
  unfolding m_private_p
  private_p_sound = ground arith

  pub run_key_sound : (m : KeyMethod) → Plain m → (run_key P m (object a) w).0 ≢ fault
  unfolding run_key
  run_key_sound KeyMethod.initialize plain = initialize_sound
  run_key_sound KeyMethod.sha1 plain = absurd plain
  run_key_sound KeyMethod.type plain = type_sound
  run_key_sound KeyMethod.type_str plain = type_str_sound
  run_key_sound KeyMethod.public_p plain = public_p_sound
  run_key_sound KeyMethod.private_p plain = private_p_sound

  pub open_session_sound : (m_open_session P none (object a) w).0 ≢ fault
  unfolding m_open_session
  open_session_sound = ground arith

  pub open_forward_sound :
      (host port : Value) → (m_open_forward P none (object a) host port w).0 ≢ fault
  unfolding m_open_forward
  open_forward_sound host port =
      ground (arith, honest.to_str_returns host, honest.to_int_returns port)
