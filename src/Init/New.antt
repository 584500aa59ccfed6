-- ===== src/Init/New.antt =====
-- `LibSSH::Session.new` and its like: a call of `new` by the name of the class.
use libssh_ruby.Base.{
  ℕ, String, ℤ, Bytes, ◌≡◌, refl, Bool, true, false, List, [], ◌∷◌, Option, none, some,
}
use libssh_ruby.Value.{Value, object, Result, ok, raised, fault}
use libssh_ruby.Libssh.{Platform}
use libssh_ruby.Runtime.{World, Action, continue, pure, ◌>>=◌}
use libssh_ruby.Methods.{
  SessionMethod, ChannelMethod, ScpMethod, KeyMethod, Method, of_session, of_channel, of_scp,
  of_key,
}
use libssh_ruby.Gc.System.{Class, alloc_of}
use libssh_ruby.Init.{Owner, Header, Registry, new_instance, call_resolved}
use libssh_ruby.Init.Dispatch.{loaded, header}

abbrev pub class_owner : Class → Owner
class_owner Class.session_class = Owner.session_class
class_owner Class.key_class = Owner.key_class
class_owner Class.channel_class = Owner.channel_class
class_owner Class.scp_class = Owner.scp_class

-- The documented arguments of `initialize`, and the call that they make.
abbrev pub constructor_call : {S : Type 0} → Class → List Value → Option (Method S)
constructor_call Class.session_class [] = some (of_session SessionMethod.initialize)
constructor_call Class.key_class [] = some (of_key KeyMethod.initialize)
constructor_call Class.channel_class (v ∷ []) = some (of_channel (ChannelMethod.initialize v))
constructor_call Class.scp_class (v ∷ mode ∷ path ∷ []) =
    some (of_scp (ScpMethod.initialize v mode path))
constructor_call k argv = none

-- The instance in place of what `initialize` returns.
abbrev pub instance_of : {S : Type 0} → ℕ → Result Value × World S → Result Value × World S
instance_of a (ok v, w) = (ok (object a), w)
instance_of a (raised e, w) = (raised e, w)
instance_of a (fault, w) = (fault, w)

module _ (P : Platform) (H : Header) where
  abbrev new_loaded : Option (Registry P.State) → Owner → List Value → Action P.State Value
  new_loaded none o argv = λ w. (fault, w)
  new_loaded (some r) o argv = new_instance P r o argv

  -- `new` in a process that has loaded the extension.
  unfoldable pub new : Owner → List Value → Action P.State Value
  unfolding loaded new_instance
  new o argv = new_loaded (loaded P H) o argv

module _ (P : Platform) (constant : String → ℤ) (version : Bytes) where
  Made : Bool → Class → List Value → World P.State → Type 0
  Made ed k argv w =
      new P (header P constant version ed) (class_owner k) argv w
      ≡ instance_of w.next
          (call_resolved P (constructor_call k argv) (object w.next) (alloc_of P k w).1)

  -- Whatever `initialize` does, `new` gives the instance or raises.
  instance_lem :
      (a : ℕ) (met : Result Value × World P.State)
      → continue met.0 (λ ignored. pure (object a)) met.1 ≡ instance_of a met
  unfolding ◌>>=◌
  instance_lem a (ok v, w) = refl
  instance_lem a (raised e, w) = refl
  instance_lem a (fault, w) = refl

  made_session :
      (ed : Bool) (argv : List Value) (w : World P.State) → Made ed Class.session_class argv w
  unfolding Made new alloc_of
  made_session true (v ∷ vs) w = refl
  made_session true [] w = instance_lem w.next _
  made_session false (v ∷ vs) w = refl
  made_session false [] w = instance_lem w.next _

  made_key : (ed : Bool) (argv : List Value) (w : World P.State) → Made ed Class.key_class argv w
  unfolding Made new alloc_of
  made_key true (v ∷ vs) w = refl
  made_key true [] w = instance_lem w.next _
  made_key false (v ∷ vs) w = refl
  made_key false [] w = instance_lem w.next _

  made_channel :
      (ed : Bool) (argv : List Value) (w : World P.State) → Made ed Class.channel_class argv w
  unfolding Made new alloc_of
  made_channel true [] w = refl
  made_channel true (u ∷ v ∷ vs) w = refl
  made_channel true (v ∷ []) w = instance_lem w.next _
  made_channel false [] w = refl
  made_channel false (u ∷ v ∷ vs) w = refl
  made_channel false (v ∷ []) w = instance_lem w.next _

  made_scp : (ed : Bool) (argv : List Value) (w : World P.State) → Made ed Class.scp_class argv w
  unfolding Made new alloc_of
  made_scp true [] w = refl
  made_scp true (u ∷ []) w = refl
  made_scp true (u ∷ v ∷ []) w = refl
  made_scp true (u ∷ v ∷ x ∷ y ∷ ys) w = refl
  made_scp true (u ∷ v ∷ x ∷ []) w = instance_lem w.next _
  made_scp false [] w = refl
  made_scp false (u ∷ []) w = refl
  made_scp false (u ∷ v ∷ []) w = refl
  made_scp false (u ∷ v ∷ x ∷ y ∷ ys) w = refl
  made_scp false (u ∷ v ∷ x ∷ []) w = instance_lem w.next _

  made : (ed : Bool) (k : Class) (argv : List Value) (w : World P.State) → Made ed k argv w
  made ed Class.session_class = made_session ed
  made ed Class.key_class = made_key ed
  made ed Class.channel_class = made_channel ed
  made ed Class.scp_class = made_scp ed

-- In a process that has loaded the extension, `new` of a class by its name allocates an object of
-- the class at the next address and runs `initialize` of the class on it, with the arguments
-- given; then it gives the object, or raises what `initialize` raises. With another number of
-- arguments than `initialize` takes it allocates the object and raises an ArgumentError.
pub new_lem :
    (P : Platform) (H : Header) (k : Class) (argv : List Value) (w : World P.State)
    → new P H (class_owner k) argv w
      ≡ instance_of w.next
          (call_resolved P (constructor_call k argv) (object w.next) (alloc_of P k w).1)
unfolding Made
new_lem P H k argv w = made P H.constant H.version H.has_ed25519 k argv w
