-- ===== src/Tests/Threads.antt =====
-- The theorems on other threads and interrupts at concrete states.
use libssh_ruby.Base.{ℕ, ◌≡◌, refl, pos, codes, [], ◌∷◌, some}
use libssh_ruby.Value.{Value, Result, no_memory, string, fixnum, object, ok, raised}
use libssh_ruby.Libssh.{
  ssh_channel_write, ssh_channel_open_session, ssh_is_connected, ssh_channel_get_session,
}
use libssh_ruby.Runtime.{World, Action}
use libssh_ruby.Runtime.Api.{fix2uint}
use libssh_ruby.Runtime.Trace.{after}
use libssh_ruby.Channel.{m_initialize}
use libssh_ruby.Methods.{ChannelMethod, of_channel, open_session}
use libssh_ruby.Threads.{nobody}
use libssh_ruby.Threads.Methods.{run_among}
use libssh_ruby.Threads.Requests.{write}
use libssh_ruby.Threads.Races.{among_lem}
use libssh_ruby.Threads.Openings.{request, session_opening}
use libssh_ruby.Threads.Interrupts.{Reading, ComesTo, reads_interrupted, openings_interrupted}
use libssh_ruby.Tests.{machine, world, block}

-- Another thread that initializes the channel anew.
abbrev renewed : World ℕ → World ℕ
renewed u = (m_initialize machine (object 1) (object 0) u).1

abbrev renewing : Action ℕ (Unit {0})
renewing u = (ok tt, renewed u)

-- A pending interrupt.
abbrev interrupt : Action ℕ (Unit {0})
interrupt u = (raised no_memory, u)

among_lem_example :
    run_among machine nobody renewing
      (of_channel (ChannelMethod.write (string (codes "in"))))
      (object 1)
      world
    ≡ (
      ok (fixnum (pos 0)),
      renewed (after machine (ssh_channel_write (some 10) (codes "in")) world),
    )
unfolding m_initialize
among_lem_example =
    among_lem machine 1 nobody renewing world (request (write (codes "in"))) tt refl refl

nobody-ComesTo : ComesTo machine nobody (ok tt)
nobody-ComesTo = record { result = λ x. refl; balanced = λ x. refl }

interrupt-ComesTo : ComesTo machine interrupt (raised no_memory)
interrupt-ComesTo = record { result = λ x. refl; balanced = λ x. refl }

abbrev cut_off : Result Value × World ℕ
cut_off =
    run_among machine nobody interrupt (of_channel (ChannelMethod.read (fixnum (pos 5) ∷ []) []))
      (object 1) world

reads_interrupted_example : (cut_off.0 ≡ raised no_memory) × (cut_off.1.buffers ≡ 1)
unfolding fix2uint
reads_interrupted_example =
    reads_interrupted machine 1 nobody interrupt world no_memory (Reading.read (pos 5) 5)
      (refl, refl) refl nobody-ComesTo interrupt-ComesTo

abbrev asked_state : World ℕ
asked_state =
    after machine (ssh_is_connected (some 1))
      (after machine (ssh_channel_get_session (some 10)) world)

abbrev opened_state : World ℕ
opened_state = after machine (ssh_channel_open_session (some 10)) asked_state

openings_interrupted_example :
    run_among machine nobody interrupt (open_session (some block)) (object 1) world
    ≡ (raised no_memory, opened_state)
openings_interrupted_example =
    openings_interrupted machine 1 nobody interrupt world asked_state opened_state no_memory
      (session_opening (some block)) refl refl refl refl
