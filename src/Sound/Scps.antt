-- ===== src/Sound/Scps.antt =====
-- The methods of an scp that take no block.
use libssh_ruby.Base.{
  ℕ, suc, ℤ, pos, negsuc, to_unsigned, ◌≡◌, ◌≢◌, Bytes, String, Option, none, some, arith,
}
use libssh_ruby.Value.{Value, fixnum, object, fault}
use libssh_ruby.Libssh.{Handle, Platform, ScpMode, ssh_scp_push_file64, ssh_scp_read}
use libssh_ruby.Runtime.{World, Holder, Heap, Action, scp, ◌>>=◌}
use libssh_ruby.Runtime.Api.{string_value_cstr, num2ulong, fix2int, check_symbol}
use libssh_ruby.Runtime.Objects.{get_scp, load_scp}
use libssh_ruby.Runtime.Trace.{reply, after}
use libssh_ruby.Channel.Stream.Buffers.{Fits}
use libssh_ruby.Scp.{m_close, m_initialize, new_scp, scp_mode, raise_if_error}
use libssh_ruby.Scp.Transfer.{
  m_pull_request, m_request_size, m_request_filename, m_request_permissions, m_accept_request,
  m_request_warning, m_write, m_deny_request, m_push_file, m_read, read_done, read_failed,
}
use libssh_ruby.Methods.{ScpMethod, run_scp}
use libssh_ruby.Sound.Conversions.{continue_sound, cstr_returns, num2ulong_returns, fix2int_returns}
use libssh_ruby.Sound.{Honest, Allocated, Kept}

-- The session that `initialize` is given is allocated, if it is an object.
abbrev pub ScpArguments : Heap → ScpMethod → Type 0
ScpArguments h (ScpMethod.initialize v mode path) = Allocated h v
ScpArguments h _ = Unit

some-none_neq : {h : Holder} {o : Option Holder} → o ≡ some h → o ≢ none
some-none_neq is_some = ground arith

module _ (P : Platform) (honest : Honest P) (a : ℕ) (w : World P.State) where
  pub close_sound :
      (h : Holder) → w.heap a ≡ some h → Kept w.heap h → (m_close P (object a) w).0 ≢ fault
  unfolding m_close
  close_sound (scp p (object b)) here kept = ground arith
  close_sound _ here kept = ground arith

  pull_request_sound :
      (h : Holder) → w.heap a ≡ some h → Kept w.heap h → (m_pull_request P (object a) w).0 ≢ fault
  unfolding m_pull_request
  pull_request_sound (scp p (object b)) here kept = ground arith
  pull_request_sound _ here kept = ground arith

  request_size_sound :
      (h : Holder) → w.heap a ≡ some h → Kept w.heap h → (m_request_size P (object a) w).0 ≢ fault
  unfolding m_request_size
  request_size_sound (scp p (object b)) here kept = ground arith
  request_size_sound _ here kept = ground arith

  request_filename_sound :
      (h : Holder)
      → w.heap a ≡ some h
      → Kept w.heap h
      → (m_request_filename P (object a) w).0 ≢ fault
  unfolding m_request_filename
  request_filename_sound (scp p (object b)) here kept = ground arith
  request_filename_sound _ here kept = ground arith

  request_permissions_sound :
      (h : Holder)
      → w.heap a ≡ some h
      → Kept w.heap h
      → (m_request_permissions P (object a) w).0 ≢ fault
  unfolding m_request_permissions
  request_permissions_sound (scp p (object b)) here kept = ground arith
  request_permissions_sound _ here kept = ground arith

  accept_request_sound :
      (h : Holder) → w.heap a ≡ some h → Kept w.heap h → (m_accept_request P (object a) w).0 ≢ fault
  unfolding m_accept_request
  accept_request_sound (scp p (object b)) here kept = ground arith
  accept_request_sound _ here kept = ground arith

  request_warning_sound :
      (h : Holder)
      → w.heap a ≡ some h
      → Kept w.heap h
      → (m_request_warning P (object a) w).0 ≢ fault
  unfolding m_request_warning
  request_warning_sound (scp p (object b)) here kept = ground arith
  request_warning_sound _ here kept = ground arith

  write_sound :
      (v : Value)
      → (h : Holder) → w.heap a ≡ some h
      → Kept w.heap h
      → (m_write P (object a) v w).0 ≢ fault
  unfolding m_write
  write_sound v (scp p (object b)) here kept = ground arith
  write_sound v _ here kept = ground arith

  deny_request_sound :
      (v : Value)
      → (h : Holder) → w.heap a ≡ some h
      → Kept w.heap h
      → (m_deny_request P (object a) v w).0 ≢ fault
  unfolding m_deny_request
  deny_request_sound v (scp p (object b)) here kept = ground (arith, honest.to_str_returns v)
  deny_request_sound v _ here kept = ground (arith, honest.to_str_returns v)

  pub load_sound :
      (h : Holder) (k : ℕ → Handle × Value → Action P.State Value)
      → w.heap a ≡ some h
      → Kept w.heap h
      → ((p : Handle) (v : Value)
          → w.heap a ≡ some (scp p v)
          → Allocated w.heap v
          → (k a (p, v) w).0 ≢ fault)
      → ((get_scp (object a) >>= λ holder. load_scp holder >>= k holder) w).0 ≢ fault
  unfolding ◌>>=◌ get_scp load_scp
  load_sound (scp p v) k here kept step = rw (here, here) (step p v here kept)
  load_sound _ k here kept step = ground arith

  pub raise_sound :
      (p : Handle) (v : Value) (w' : World P.State) (rc : ℤ)
      → w'.heap a ≡ some (scp p v)
      → Allocated w'.heap v
      → (raise_if_error P a rc w').0 ≢ fault
  unfolding raise_if_error
  raise_sound p (object b) w' rc held allocated = ground arith
  raise_sound p v w' rc held allocated = ground arith

  push_file_sound :
      (u v x : Value) (h : Holder)
      → w.heap a ≡ some h
      → Kept w.heap h
      → (m_push_file P (object a) u v x w).0 ≢ fault
  unfolding m_push_file
  push_file_sound u v x h here kept = load_sound h _ here kept λ p kept_value held allocated.
      continue_sound (string_value_cstr P u) _ w (cstr_returns P honest u) λ name.
        continue_sound (num2ulong P v) _ w (num2ulong_returns P honest v) λ size.
          continue_sound (fix2int P x) _ w (fix2int_returns P honest x) λ mode. ground (
            arith,
            raise_sound p kept_value (after P (ssh_scp_push_file64 p name size mode) w)
                (reply P (ssh_scp_push_file64 p name size mode) w) held allocated,
          )

  scp_mode_returns : (id : String) → scp_mode id ≢ fault
  scp_mode_returns id = ground arith

  check_symbol_returns : (v : Value) → check_symbol v ≢ fault
  unfolding check_symbol
  check_symbol_returns v = ground arith

  new_scp_sound :
      (v : Value) (mode : ScpMode) (path : Bytes)
      → w.heap a ≢ none
      → Allocated w.heap v
      → (new_scp P (object a) v mode path w).0 ≢ fault
  unfolding new_scp
  new_scp_sound (object b) mode path here there = ground arith
  new_scp_sound v mode path here there = ground arith

  initialize_sound :
      (v mode path : Value)
      → w.heap a ≢ none
      → Allocated w.heap v
      → (m_initialize P (object a) v mode path w).0 ≢ fault
  unfolding m_initialize
  initialize_sound v mode path here there =
      continue_sound (check_symbol mode) _ w (check_symbol_returns mode) λ id.
        continue_sound (scp_mode id) _ w (scp_mode_returns id) λ c_mode.
          continue_sound (string_value_cstr P path) _ w (cstr_returns P honest path)
            λ c_path. new_scp_sound v c_mode c_path here there

  read_done_sound :
      (size : ℕ) (answer : ℤ × Bytes) (w' : World P.State)
      → Fits size answer
      → (read_done P size answer.1 answer.0 (record w' { buffers = suc w'.buffers })).0 ≢ fault
  unfolding read_done
  read_done_sound size (pos k, buffer) w' fits = ground arith
  read_done_sound size (negsuc k, buffer) w' fits = ground arith

  read_failed_sound :
      (p : Handle) (v : Value) (w' : World P.State) (rc : ℤ)
      → w'.heap a ≡ some (scp p v)
      → Allocated w'.heap v
      → (read_failed P a rc (record w' { buffers = suc w'.buffers })).0 ≢ fault
  unfolding read_failed
  read_failed_sound p v w' rc held allocated = ground (arith, raise_sound p v w' rc held allocated)

  read_sound :
      (v : Value) (h : Holder)
      → w.heap a ≡ some h
      → Kept w.heap h
      → (m_read P (object a) v w).0 ≢ fault
  unfolding m_read
  read_sound (fixnum i) h here kept = load_sound h _ here kept λ p kept_value held allocated.
      continue_sound (fix2int P (fixnum i)) _ w (fix2int_returns P honest (fixnum i)) λ size.
        let c = ssh_scp_read p (to_unsigned 64 size) in
        ground (
          arith,
          read_done_sound (to_unsigned 64 size) (reply P c w) (after P c w)
              (honest.scp_fits p (to_unsigned 64 size) w.ssh),
          read_failed_sound p kept_value (after P c w) (reply P c w).0 held allocated,
        )
  read_sound v h here kept = ground arith

  pub run_scp_sound :
      (h : Holder)
      → w.heap a ≡ some h
      → Kept w.heap h
      → (m : ScpMethod) → ScpArguments w.heap m
      → (run_scp P m (object a) w).0 ≢ fault
  unfolding run_scp
  run_scp_sound h here kept ScpMethod.close given = close_sound h here kept
  run_scp_sound h here kept ScpMethod.pull_request given = pull_request_sound h here kept
  run_scp_sound h here kept ScpMethod.request_size given = request_size_sound h here kept
  run_scp_sound h here kept ScpMethod.request_filename given = request_filename_sound h here kept
  run_scp_sound h here kept ScpMethod.request_permissions given =
      request_permissions_sound h here kept
  run_scp_sound h here kept ScpMethod.accept_request given = accept_request_sound h here kept
  run_scp_sound h here kept ScpMethod.request_warning given = request_warning_sound h here kept
  run_scp_sound h here kept (ScpMethod.write v) given = write_sound v h here kept
  run_scp_sound h here kept (ScpMethod.deny_request v) given = deny_request_sound v h here kept
  run_scp_sound h here kept (ScpMethod.read v) given = read_sound v h here kept
  run_scp_sound h here kept (ScpMethod.push_file u v x) given = push_file_sound u v x h here kept
  run_scp_sound h here kept (ScpMethod.initialize v mode path) given =
      initialize_sound v mode path (some-none_neq here) given
