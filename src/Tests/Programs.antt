-- ===== src/Tests/Programs.antt =====
-- The theorems on programs at concrete states.
use libssh_ruby.Gc.{sweep}
use libssh_ruby.Gc.System.History.{History}
use libssh_ruby.Runtime.{Action}
use libssh_ruby.Runtime.Keeps.{Keeps}
use libssh_ruby.Base.{some, ℕ, ◌≡◌, refl, inl, pos, codes, true, [], ◌∷◌}
use libssh_ruby.Value.{Value, nil, ok, object}
use libssh_ruby.Runtime.{World}
use libssh_ruby.Methods.{open_session}
use libssh_ruby.Gc.System.{Class, initial, alloc_of}
use libssh_ruby.Init.{Owner, Header, call_resolved}
use libssh_ruby.Init.New.{new, constructor_call, instance_of, new_lem}
use libssh_ruby.Program.{Command, make, send, perform, Run}
use libssh_ruby.Tests.{machine, world}
use libssh_ruby.Tests.Soundness.{short_machine}

abbrev small_header : Header
small_header = record { constant = λ name. pos 0; version = codes "0.2.0"; has_ed25519 = true }

new_lem_example :
    new machine small_header Owner.channel_class (object 0 ∷ []) world
    ≡ instance_of 4 (
        call_resolved machine
          (constructor_call Class.channel_class (object 0 ∷ []))
          (object 4)
          (alloc_of machine Class.channel_class world).1)
new_lem_example = new_lem machine small_header Class.channel_class (object 0 ∷ []) world

-- `session = LibSSH::Session.new`
abbrev with_session : World ℕ
with_session = (perform short_machine small_header (make Class.session_class []) (initial 0)).1

-- `channel = LibSSH::Channel.new(session)`
abbrev with_channel : World ℕ
with_channel =
    (perform short_machine small_header (make Class.channel_class (object 0 ∷ [])) with_session).1

abbrev program : Run short_machine small_header 0 (with_session.next ∷ 0 ∷ []) with_channel
program =
    Run.made (Run.made Run.start Class.session_class [] tt) Class.channel_class (object 0 ∷ [])
      (inl refl, tt)

-- A block that makes a session and drops it, and during which the collector frees it.
abbrev littering : Action ℕ Value
littering w =
    (ok nil, (sweep short_machine w.next (alloc_of short_machine Class.session_class w).1).1)

-- `channel.open_session { LibSSH::Session.new; GC.start }`
abbrev opening : Command ℕ
opening = send with_session.next (open_session (some littering))
