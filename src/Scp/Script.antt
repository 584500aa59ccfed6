-- ===== src/Scp/Script.antt =====
-- Whole transfers: a block of `init` that makes one transfer call after another and decides by the
-- results how to go on, as example/scp_download.rb does, and a description of it in terms of
-- libssh's answers.
use libssh_ruby.Base.{
  ℤ, pos, ◌==ℤ◌, fits_signed, to_unsigned, Bytes, contains, ◌≡◌, true, false, if◌then◌else◌,
}
use libssh_ruby.Value.{Value, nil, fixnum, string, Result, ok}
use libssh_ruby.Libssh.{
  Handle, Platform, Call, ssh_scp_push_file64, ssh_scp_write, ssh_scp_pull_request,
  ssh_scp_accept_request, ssh_scp_deny_request, ssh_scp_request_get_permissions,
  ssh_scp_request_get_size64, ssh_scp_request_get_filename, ssh_scp_request_get_warning,
  ssh_scp_read,
}
use libssh_ruby.Runtime.{World, Action, pure, continue, ◌>>=◌}
use libssh_ruby.Runtime.Trace.{reply, after}
use libssh_ruby.Error.Outcome.{report, outcome}
use libssh_ruby.Channel.Stream.Buffers.{read_result}
use libssh_ruby.Scp.Transfer.{
  m_push_file, m_write, m_pull_request, m_accept_request, m_deny_request, m_request_permissions,
  m_request_size, m_request_filename, m_request_warning, m_read, string_or_nil,
}

pub data Operation : Type 0 where
  push_file : Bytes → ℤ → ℤ → Operation
  write deny_request : Bytes → Operation
  read : ℤ → Operation
  pull_request accept_request request_permissions : Operation
  request_size request_filename request_warning : Operation

-- A block: its result, or an operation and what follows for each result of that.
pub data Script : Type 0 where
  finish : Value → Script
  step : Operation → (Value → Script) → Script

module _ (P : Platform) where
  -- Names and reasons have no NUL byte, a mode and a size to read are within an `int`, and there is
  -- memory for what is to be read.
  abbrev pub IsValid : Operation → Type 0
  IsValid (push_file name size mode) = (contains name 0 ≡ false) × (fits_signed 31 mode ≡ true)
  IsValid (deny_request reason) = contains reason 0 ≡ false
  IsValid (read size) = (fits_signed 31 size ≡ true) × (P.can_alloc (to_unsigned 64 size) ≡ true)
  IsValid _ = Unit

  abbrev pub AllValid : Script → Type 0
  AllValid (finish v) = Unit
  AllValid (step o go_on) = IsValid o × ((v : Value) → AllValid (go_on v))

  abbrev pub operate : Operation → Value → Action P.State Value
  operate (push_file name size mode) self =
      m_push_file P self (string name) (fixnum size) (fixnum mode)
  operate (write text) self = m_write P self (string text)
  operate (deny_request reason) self = m_deny_request P self (string reason)
  operate (read size) self = m_read P self (fixnum size)
  operate pull_request self = m_pull_request P self
  operate accept_request self = m_accept_request P self
  operate request_permissions self = m_request_permissions P self
  operate request_size self = m_request_size P self
  operate request_filename self = m_request_filename P self
  operate request_warning self = m_request_warning P self

  -- The block as Ruby runs it.
  unfoldable pub perform : Script → Value → Action P.State Value
  unfolding ◌>>=◌
  perform (finish v) self = pure v
  perform (step o go_on) self = operate o self >>= λ v. perform (go_on v) self

  -- One call that gives a code: it is an error of the session `s`, or a value is made of it.
  abbrev coded : Handle → (c : Call) → ℤ → Value → World P.State → Result Value × World P.State
  coded s c rc v w = outcome P s rc v (after P c w)

  -- What an operation is to be: one call of libssh on the structure `p`, and what its answer means.
  unfoldable pub met : Handle → Handle → Operation → World P.State → Result Value × World P.State
  met p s (push_file name size mode) w =
      let c = ssh_scp_push_file64 p name (to_unsigned 64 size) mode in coded s c (reply P c w) nil w
  met p s (write text) w = let c = ssh_scp_write p text in coded s c (reply P c w) nil w
  met p s (deny_request reason) w =
      let c = ssh_scp_deny_request p reason in coded s c (reply P c w) nil w
  met p s accept_request w = let c = ssh_scp_accept_request p in coded s c (reply P c w) nil w
  met p s pull_request w =
      let c = ssh_scp_pull_request p in coded s c (reply P c w) (fixnum (reply P c w)) w
  met p s request_permissions w =
      let c = ssh_scp_request_get_permissions p in coded s c (reply P c w) (fixnum (reply P c w)) w
  met p s (read size) w =
      let c = ssh_scp_read p (to_unsigned 64 size) in
      if (reply P c w).0 ==ℤ P.ssh_error
      then report P s (after P c w)
      else read_result (reply P c w) (after P c w)
  met p s request_size w =
      let c = ssh_scp_request_get_size64 p in (ok (fixnum (pos (reply P c w))), after P c w)
  met p s request_filename w =
      let c = ssh_scp_request_get_filename p in (ok (string_or_nil (reply P c w)), after P c w)
  met p s request_warning w =
      let c = ssh_scp_request_get_warning p in (ok (string_or_nil (reply P c w)), after P c w)

  -- What a transfer is to be: the operations in order, up to the first that raises.
  unfoldable pub transfer : Handle → Handle → Script → World P.State → Result Value × World P.State
  transfer p s (finish v) w = (ok v, w)
  transfer p s (step o go_on) w =
      continue (met p s o w).0 (λ v. transfer p s (go_on v)) (met p s o w).1
