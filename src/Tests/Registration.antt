-- ===== src/Tests/Registration.antt =====
-- The theorems on loading the extension at concrete states.
use libssh_ruby.Base.{◌≡◌, refl, pos, codes, true, [], ◌∷◌, none, some, arith}
use libssh_ruby.Value.{nil, fixnum, object, arg_error, raised}
use libssh_ruby.Methods.{SessionMethod, ChannelMethod, of_session, of_channel, run}
use libssh_ruby.Init.{Header, lib_module, session_class, channel_class, id_read}
use libssh_ruby.Init.Dispatch.{call, call-run}
use libssh_ruby.Init.Arity.{call-wrong_number}
use libssh_ruby.Init.Constants.{server_known_changed, constant_value, interned, constants_lem}
use libssh_ruby.Tests.{machine, world}

abbrev one_header : Header
one_header = record { constant = λ name. pos 2; version = codes "0.7.0"; has_ed25519 = true }

call-run_example :
    call machine one_header channel_class "close" [] [] none (object 1)
    ≡ run machine (of_channel ChannelMethod.close) (object 1)
call-run_example =
    (call-run machine one_header (of_channel ChannelMethod.close) none (object 1) [] nil nil nil
      nil).0

call-wrong_number_example :
    call machine one_header session_class "connect" (nil ∷ []) [] none (object 0) world
    ≡ (raised arg_error, world)
call-wrong_number_example =
    call-wrong_number machine one_header (of_session SessionMethod.connect) 0 (nil ∷ []) none
      (object 0) world refl (omega arith)

constants_lem_example :
    (constant_value machine one_header lib_module "SERVER_KNOWN_CHANGED" ≡ some (fixnum (pos 2)))
    × (interned machine one_header id_read ≡ some "read")
constants_lem_example = constants_lem machine one_header server_known_changed id_read
