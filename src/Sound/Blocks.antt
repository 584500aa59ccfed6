-- ===== src/Sound/Blocks.antt =====
-- The methods that run a block and close what they opened behind it.
use libssh_ruby.Base.{ℕ, pos, codes, ◌≡◌, ◌≢◌, refl, some, none, arith}
use libssh_ruby.Value.{Value, object, fault}
use libssh_ruby.Libssh.{
  Platform, ssh_channel_get_session, ssh_is_connected, ssh_channel_open_session,
  ssh_channel_open_forward, ssh_scp_init,
}
use libssh_ruby.Runtime.{World, Action, Holder}
use libssh_ruby.Runtime.Api.{ensure, string_value_cstr, fix2int}
use libssh_ruby.Runtime.Trace.{reply, after}
use libssh_ruby.Channel.Requests.{m_open_session, m_open_forward}
use libssh_ruby.Channel.Requests
use libssh_ruby.Scp.{m_init}
use libssh_ruby.Scp
use libssh_ruby.Sound.Scps
use libssh_ruby.Sound.{Honest, Kept}
use libssh_ruby.Sound.Conversions.{continue_sound, fixnum_sound, cstr_returns, fix2int_returns}
use libssh_ruby.Sound.Channels.{get_sound, load_sound, close_sound, raise_sound}

ensure_sound :
    {S : Type 0} (body cleanup : Action S Value) (w : World S)
    → (body w).0 ≢ fault
    → (cleanup (body w).1).0 ≢ fault
    → (ensure body cleanup w).0 ≢ fault
unfolding ensure
ensure_sound body cleanup w body_sound cleanup_sound = ground arith

module _ (P : Platform) (honest : Honest P) (a : ℕ) (w : World P.State) (here : w.heap a ≢ none)
    (block : Action P.State Value)
    (block_sound : (w' : World P.State)
      → w'.heap ≡ w.heap
      → w'.next ≡ w.next
      → (block w').0 ≢ fault)
    (kept : (w' : World P.State)
      → w'.heap ≡ w.heap
      → w'.next ≡ w.next
      → (block w').1.heap a ≢ none) where
  closed_sound :
      (w' : World P.State)
      → w'.heap ≡ w.heap
      → w'.next ≡ w.next
      → (ensure block (Requests.m_close P (object a)) w').0 ≢ fault
  closed_sound w' same still =
      ensure_sound block (Requests.m_close P (object a)) w' (block_sound w' same still)
        (close_sound P honest a (block w').1 (kept w' same still))

  pub open_session_sound : (m_open_session P (some block) (object a) w).0 ≢ fault
  unfolding m_open_session
  open_session_sound = get_sound P honest a w here _ λ c v held.
      load_sound P honest a w here _ c v held (
        let w1 = after P (ssh_channel_get_session c) w in
        let s = reply P (ssh_channel_get_session c) w in
        let w2 = after P (ssh_is_connected s) w1 in
        let w3 = after P (ssh_channel_open_session c) w2 in
        let rc = reply P (ssh_channel_open_session c) w2 in
        ground (arith, raise_sound P honest a w here c v w3 rc held, closed_sound w3 refl refl))

  pub open_forward_sound :
      (host port : Value) → (m_open_forward P (some block) (object a) host port w).0 ≢ fault
  unfolding m_open_forward
  open_forward_sound host port = get_sound P honest a w here _ λ c v held.
      continue_sound (string_value_cstr P host) _ w (cstr_returns P honest host) λ c_host.
        fixnum_sound port _ w λ i is_fixnum.
          continue_sound (fix2int P port) _ w (fix2int_returns P honest port) λ c_port.
            load_sound P honest a w here _ c v held (
              let request = ssh_channel_open_forward c c_host c_port (codes "localhost") (pos 22) in
              ground (
                arith,
                raise_sound P honest a w here c v (after P request w) (reply P request w) held,
                closed_sound (after P request w) refl refl,
              ))

module _ (P : Platform) (honest : Honest P) (a : ℕ) (w : World P.State) (h : Holder)
    (here : w.heap a ≡ some h) (holds : Kept w.heap h) (block : Action P.State Value)
    (block_sound : (w' : World P.State)
      → w'.heap ≡ w.heap
      → w'.next ≡ w.next
      → (block w').0 ≢ fault)
    (kept : (w' : World P.State)
      → w'.heap ≡ w.heap
      → w'.next ≡ w.next
      → (x : Holder) × ((block w').1.heap a ≡ some x) × Kept (block w').1.heap x) where
  scp_closed_sound :
      (w' : World P.State)
      → w'.heap ≡ w.heap
      → w'.next ≡ w.next
      → (ensure block (Scp.m_close P (object a)) w').0 ≢ fault
  scp_closed_sound w' same still =
      let (x, is_x, kept_x) = kept w' same still in
      ensure_sound block (Scp.m_close P (object a)) w' (block_sound w' same still)
        (Scps.close_sound P honest a (block w').1 x is_x kept_x)

  pub init_sound : (m_init P block (object a) w).0 ≢ fault
  unfolding m_init
  init_sound = Scps.load_sound P honest a w h _ here holds λ p v held allocated.
      let w1 = after P (ssh_scp_init p) w in
      let rc = reply P (ssh_scp_init p) w in
      ground (
        arith,
        Scps.raise_sound P honest a w p v w1 rc held allocated,
        scp_closed_sound w1 refl refl,
      )
