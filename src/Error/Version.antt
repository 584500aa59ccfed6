-- ===== src/Error/Version.antt =====
-- What `LibSSH.version` returns.
use libssh_ruby.Base.{ℤ, pos, fits_signed, ◌≡◌, Bytes, [], ◌∷◌, Option, none, some, true, arith}
use libssh_ruby.Value.{Value, nil, fixnum, string, arg_error, Result, ok, raised}
use libssh_ruby.Libssh.{Platform, ssh_version}
use libssh_ruby.Runtime.{World}
use libssh_ruby.Runtime.Trace.{reply, after}
use libssh_ruby.Error.{m_version}

abbrev pub version_text : Option Bytes → Result Value
version_text none = raised arg_error
version_text (some text) = ok (string text)

module _ (P : Platform) (w : World P.State) where
  -- One call of `ssh_version`, and what is made of its answer.
  abbrev pub version_asked : ℤ → Result Value × World P.State
  version_asked required = let c = ssh_version required in (version_text (reply P c w), after P c w)

  -- `version` asks libssh once, for the version 0 without an argument or with nil, and for the
  -- version given by a fixnum within an `int`. It returns libssh's text; where libssh answers NULL,
  -- as for a version that it does not reach, it raises an ArgumentError.
  pub version_lem :
      (required : ℤ)
      → fits_signed 31 required ≡ true
      → (m_version P [] w ≡ version_asked (pos 0))
        × (m_version P (nil ∷ []) w ≡ version_asked (pos 0))
        × (m_version P (fixnum required ∷ []) w ≡ version_asked required)
  unfolding m_version
  version_lem required fits = (ground arith, ground arith, ground arith)
