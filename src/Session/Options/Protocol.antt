-- ===== src/Session/Options/Protocol.antt =====
-- `protocol=`: the loop over the array against the set of protocols that it names.
use libssh_ruby.Base.{
  ℕ, ℤ, pos, ◌==ℤ◌, fits_signed, ◌≡◌, refl, Bool, true, false, Bool-cases, inl, inr, ◌&&◌, ◌||◌,
  some, arith, if◌then◌else◌,
}
use libssh_ruby.Value.{
  Value, nil, fixnum, object, array, Values, empty, entry, Exception, type_error, arg_error,
  range_error, Result, ok, raised,
}
use libssh_ruby.Libssh.{Handle, Platform, OptionType, int, ssh_options_set}
use libssh_ruby.Runtime.{World, session}
use libssh_ruby.Runtime.Trace.{reply, after}
use libssh_ruby.Error.Outcome.{outcome, report}
use libssh_ruby.Session.Options.{protocol_flags, m_set_protocol}

-- Whether a value is the fixnum `k`.
abbrev pub is_number : ℕ → Value → Bool
is_number k (fixnum i) = i ==ℤ pos k
is_number k _ = false

abbrev pub is_protocol : Value → Bool
is_protocol v = is_number 1 v || is_number 2 v

abbrev pub all_protocols : Values → Bool
all_protocols empty = true
all_protocols (entry v vs) = is_protocol v && all_protocols vs

-- Whether the array names protocol `k`.
abbrev pub names : ℕ → Values → Bool
names k empty = false
names k (entry v vs) = is_number k v || names k vs

-- The value of an `int` that serves as a flag.
abbrev pub set_if : Bool → ℤ → ℤ
set_if b i = if b then pos 1 else i

-- What is raised for an entry that is no protocol, and for the first such entry of an array.
abbrev pub refusal : Value → Exception
refusal (fixnum i) = if fits_signed 31 i then arg_error else range_error
refusal _ = type_error

abbrev pub rejection : Values → Exception
rejection empty = type_error
rejection (entry v vs) = if is_protocol v then rejection vs else refusal v

module _ (P : Platform) where
  pub protocol_flags_lem :
      (vs : Values) (ssh1 ssh2 : ℤ)
      → all_protocols vs ≡ true
      → protocol_flags P vs (ssh1, ssh2) ≡ ok (set_if (names 1 vs) ssh1, set_if (names 2 vs) ssh2)
  unfolding protocol_flags
  protocol_flags_lem empty ssh1 ssh2 h = refl
  protocol_flags_lem (entry (fixnum i) vs) ssh1 ssh2 h =
      ground (arith, protocol_flags_lem vs (pos 1) ssh2, protocol_flags_lem vs ssh1 (pos 1))
  protocol_flags_lem (entry v vs) ssh1 ssh2 h = ground arith

  protocol_flags-rejected :
      (vs : Values) (flags : ℤ × ℤ)
      → all_protocols vs ≡ false
      → protocol_flags P vs flags ≡ raised (rejection vs)
  unfolding protocol_flags
  protocol_flags-rejected empty flags h = cc
  protocol_flags-rejected (entry (fixnum i) vs) (ssh1, ssh2) h =
      ground
        (arith, protocol_flags-rejected vs (pos 1, ssh2), protocol_flags-rejected vs (ssh1, pos 1))
  protocol_flags-rejected (entry v vs) flags h = ground arith

  set_protocol-rejected :
      (self : Value) (vs : Values) (w : World P.State)
      → all_protocols vs ≡ false
      → m_set_protocol P self (array vs) w ≡ (raised (rejection vs), w)
  unfolding m_set_protocol
  set_protocol-rejected self vs w h = rw (protocol_flags-rejected vs (pos 0, pos 0) h)

  -- The two options in their order, up to the first error.
  abbrev pub both_options : Handle → Values → World P.State → Result Value × World P.State
  both_options s vs w =
      let c = ssh_options_set s OptionType.ssh1 (int (set_if (names 1 vs) (pos 0))) in
      let d = ssh_options_set s OptionType.ssh2 (int (set_if (names 2 vs) (pos 0))) in
      let w' = after P c w in
      if reply P c w ==ℤ P.ssh_error
      then report P s w'
      else outcome P s (reply P d w') nil (after P d w')

  set_protocol-accepted :
      (a : ℕ) (s : Handle) (vs : Values) (w : World P.State)
      → w.heap a ≡ some (session s)
      → all_protocols vs ≡ true
      → m_set_protocol P (object a) (array vs) w ≡ both_options s vs w
  unfolding m_set_protocol
  set_protocol-accepted a s vs w here valid =
      rw (protocol_flags_lem vs (pos 0) (pos 0) valid) (ground arith)

  -- Where all entries of the array are 1 or 2, in any order and as often, the option for SSH 1
  -- is set to 1 if the array names 1 and to 0 if not; if libssh accepts that, the option for SSH
  -- 2 is set to 1 if the array names 2 and to 0 if not. The first SSH_ERROR is raised, and with
  -- none the result is nil. Where an entry is neither 1 nor 2, the first such entry decides the
  -- exception, libssh is not called and nothing changes.
  pub set_protocol_lem :
      (a : ℕ) (s : Handle) (vs : Values) (w : World P.State)
      → w.heap a ≡ some (session s)
      → m_set_protocol P (object a) (array vs) w
        ≡ (if all_protocols vs then both_options s vs w else (raised (rejection vs), w))
  set_protocol_lem a s vs w here = elim (Bool-cases (all_protocols vs)) [
    | inl valid ↦ rw valid (set_protocol-accepted a s vs w here valid)
    | inr invalid ↦ rw invalid (set_protocol-rejected (object a) vs w invalid)
  ]
