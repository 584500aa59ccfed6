-- ===== src/Init/Dispatch.antt =====
-- Ruby's calls by name against the direct calls of the C functions.
use libssh_ruby.Base.{
  String, ℤ, Bytes, ◌≡◌, refl, Bool, true, false, List, [], ◌∷◌, Option, none, some,
}
use libssh_ruby.Value.{Value, fault}
use libssh_ruby.Libssh.{Platform}
use libssh_ruby.Runtime.{Action}
use libssh_ruby.Runtime.Api.{Keywords}
use libssh_ruby.Methods.{
  SessionMethod, ChannelMethod, ScpMethod, KeyMethod, Method, of_session, of_channel, of_scp,
  of_key, run,
}
use libssh_ruby.Error.{m_version}
use libssh_ruby.Channel.Select.{s_select}
use libssh_ruby.Init.{
  find, call_own, lib_module, channel_class, Owner, Block, Header, Registry, nothing_defined,
  define_all, invoke,
}
use libssh_ruby.Init.Tables.{init_libssh_ruby}
use libssh_ruby.Init.Names.{method_owner, method_name, method_args, method_opts, method_block}

module _ (P : Platform) (H : Header) where
  -- What the extension has defined once it is loaded.
  unfoldable pub loaded : Option (Registry P.State)
  unfolding init_libssh_ruby
  loaded = define_all (init_libssh_ruby P H) nothing_defined

  abbrev call_loaded :
      Option (Registry P.State)
      → Owner
      → String
      → List Value
      → Keywords
      → Block P.State
      → Value
      → Action P.State Value
  call_loaded none o name argv opts block self = λ w. (fault, w)
  call_loaded (some r) o name argv opts block self = invoke P r o name argv opts block self

  -- A call of a method by its name in a process that has loaded the extension.
  unfoldable pub call :
      Owner → String → List Value → Keywords → Block P.State → Value → Action P.State Value
  unfolding loaded invoke
  call o name argv opts block self = call_loaded loaded o name argv opts block self

  -- A call of a function of the module or of a class.
  unfoldable pub own : Owner → String → List Value → Action P.State Value
  unfolding loaded
  own o name argv = elim loaded [
    | none ↦ λ w. (fault, w)
    | some r ↦ call_own (find o name r.singletons) argv
  ]

  -- A call as it is documented.
  abbrev pub documented_call : Method P.State → Block P.State → Value → Action P.State Value
  documented_call m block self =
      call (method_owner m) (method_name m) (method_args m) (method_opts m) (method_block m block)
        self

module _ (P : Platform) (constant : String → ℤ) (version : Bytes) where
  abbrev pub header : Bool → Header
  header ed = record { constant = constant; version = version; has_ed25519 = ed }

  session_call :
      (ed : Bool) (m : SessionMethod) (block : Block P.State) (self : Value)
      → documented_call P (header ed) (of_session m) block self ≡ run P (of_session m) self
  unfolding call run
  session_call true SessionMethod.connect block self = refl
  session_call true _ block self = refl
  session_call false SessionMethod.connect block self = refl
  session_call false _ block self = refl

  channel_call :
      (ed : Bool) (m : ChannelMethod) (block : Block P.State) (self : Value)
      → documented_call P (header ed) (of_channel m) block self ≡ run P (of_channel m) self
  unfolding call run
  channel_call true ChannelMethod.close block self = refl
  channel_call true _ block self = refl
  channel_call false ChannelMethod.close block self = refl
  channel_call false _ block self = refl

  scp_call :
      (ed : Bool) (m : ScpMethod) (block : Block P.State) (self : Value)
      → documented_call P (header ed) (of_scp m) block self ≡ run P (of_scp m) self
  unfolding call run
  scp_call true ScpMethod.close block self = refl
  scp_call true _ block self = refl
  scp_call false ScpMethod.close block self = refl
  scp_call false _ block self = refl

  key_call :
      (ed : Bool) (m : KeyMethod) (block : Block P.State) (self : Value)
      → documented_call P (header ed) (of_key m) block self ≡ run P (of_key m) self
  unfolding call run
  key_call true KeyMethod.sha1 block self = refl
  key_call true _ block self = refl
  key_call false KeyMethod.sha1 block self = refl
  key_call false _ block self = refl

  method_call :
      (ed : Bool) (m : Method P.State) (block : Block P.State) (self : Value)
      → documented_call P (header ed) m block self ≡ run P m self
  unfolding call run
  method_call ed (of_session m) block self = session_call ed m block self
  method_call ed (of_channel m) block self = channel_call ed m block self
  method_call ed (of_scp m) block self = scp_call ed m block self
  method_call ed (of_key m) block self = key_call ed m block self
  method_call true _ block self = refl
  method_call false _ block self = refl

  own_call :
      (ed : Bool) (argv : List Value) (r q e t : Value)
      → (own P (header ed) lib_module "version" argv ≡ m_version P argv)
        × (own P (header ed) channel_class "select" (r ∷ q ∷ e ∷ t ∷ []) ≡ s_select P r q e t)
  unfolding own
  own_call true argv r q e t = (refl, refl)
  own_call false argv r q e t = (refl, refl)

-- In a process that has loaded the extension, a call of any method of the four classes by its
-- documented name and with the documented number of arguments runs its C function on them, and so
-- do `LibSSH.version` with any arguments and `Channel.select` with four, whatever the values of
-- libssh's constants and whether or not the build found ED25519.
pub call-run :
    (P : Platform) (H : Header) (m : Method P.State) (block : Block P.State) (self : Value)
    (argv : List Value) (r q e t : Value)
    → (documented_call P H m block self ≡ run P m self)
      × (own P H lib_module "version" argv ≡ m_version P argv)
      × (own P H channel_class "select" (r ∷ q ∷ e ∷ t ∷ []) ≡ s_select P r q e t)
call-run P H m block self argv r q e t =
    let (version, select) = own_call P H.constant H.version H.has_ed25519 argv r q e t in
    (method_call P H.constant H.version H.has_ed25519 m block self, version, select)
