-- ===== src/Error/Outcome.antt =====
-- What a guarded call of libssh comes to, in one step: the description that the methods of the
-- three classes are held against.
use libssh_ruby.Base.{ℤ, ◌==ℤ◌, Bytes, Option, none, some, if◌then◌else◌}
use libssh_ruby.Value.{string, arg_error, libssh_error, Result, ok, raised}
use libssh_ruby.Libssh.{
  Handle, Platform, ssh_get_error_code, ssh_get_error, ssh_channel_get_session,
}
use libssh_ruby.Runtime.{World}
use libssh_ruby.Runtime.Trace.{reply, after}

-- The exception for a code and a message; Ruby refuses to make a string of NULL.
abbrev pub error_of {ℓ} : {A : Type ℓ} → ℤ → Option Bytes → Result A
error_of code none = raised arg_error
error_of code (some text) = raised (libssh_error code (string text))

module _ (P : Platform) where
  -- The two questions about the last error of a session, and the exception made of the answers.
  abbrev pub report : {A : Type 0} → Handle → World P.State → Result A × World P.State
  report s w =
      let w' = after P (ssh_get_error_code s) w in
      (
        error_of (reply P (ssh_get_error_code s) w) (reply P (ssh_get_error s) w'),
        after P (ssh_get_error s) w',
      )

  -- For a call on a session `s` that returned `rc` and left `w`.
  abbrev pub outcome : {A : Type 0} → Handle → ℤ → A → World P.State → Result A × World P.State
  outcome s rc v w = if rc ==ℤ P.ssh_error then report s w else (ok v, w)

  -- For a call on a channel `c`, whose session is asked for first.
  abbrev pub channel_outcome :
      {A : Type 0} → Handle → ℤ → A → World P.State → Result A × World P.State
  channel_outcome c rc v w =
      if rc ==ℤ P.ssh_error
      then report (reply P (ssh_channel_get_session c) w) (after P (ssh_channel_get_session c) w)
      else (ok v, w)
