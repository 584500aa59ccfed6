-- ===== src/Gc/Initialize.antt =====
-- The functions that write holders keep a set closed: creation and `initialize` of the four
-- classes, and `get_publickey`.
use libssh_ruby.Base.{
  ℕ, ◌≡◌, ap, true, ◌&&◌, Bool-cases, inl, inr, none, some, Bytes, ℤ, ◌==ℤ◌, arith,
}
use libssh_ruby.Value.{Value, object}
use libssh_ruby.Libssh.{Handle, Platform, ScpMode}
use libssh_ruby.Runtime.{channel, scp, Heap, World}
use libssh_ruby.Runtime.Keeps.{Keeps, keeps_rules}
use libssh_ruby.Key
use libssh_ruby.Key.{key_alloc}
use libssh_ruby.Session
use libssh_ruby.Session.{session_alloc}
use libssh_ruby.Channel
use libssh_ruby.Channel.{channel_alloc}
use libssh_ruby.Scp
use libssh_ruby.Scp.{scp_alloc, new_scp}
use libssh_ruby.Key.Laws.{get_publickey_lem}
use libssh_ruby.Session.Connection.{m_get_publickey}
use libssh_ruby.Error.Outcome.{outcome}
use libssh_ruby.Gc.Closed.{is_session, Linked, Closed, Closed-store, Closed-alloc}
use libssh_ruby.Gc.Writes.{
  is_channel, is_scp, is_key, session_handle, store-Grows, object_is, and_parts, of_is_channel,
  of_is_key, of_is_scp, channel_written, channel_unchanged, scp_written, scp_unchanged,
  session_written, session_unchanged, key_written, key_unchanged, publickey_unchanged, session_some,
  session-Grows,
}

module _ (P : Platform) (D : ℕ → Type 0) where
  abbrev pub IsClosed : World P.State → Type 0
  IsClosed w = Closed D w.heap w.next

  -- An argument is no object, or one of the set.
  abbrev pub Held : Value → Type 0
  Held (object b) = D b
  Held _ = Unit

  Linked-new :
      (h : Heap) (b : ℕ) (c : Handle)
      → D b
      → is_session (h b) ≡ true
      → Linked D h (some (channel c (object b))) × Linked D h (some (scp c (object b)))
  Linked-new h b none d s = (tt, tt)
  Linked-new h b (some c) d s = ((d, s), (d, s))

  channel-Keeps_met :
      (self v : Value) (w : World P.State)
      → Held v
      → IsClosed w
      → (object_is is_channel w.heap self && object_is is_session w.heap v) ≡ true
      → IsClosed (Channel.m_initialize P self v w).1
  channel-Keeps_met (object a) (object b) w held h met =
      let (ca, sb) = and_parts _ _ met in
      let (old, plain) = of_is_channel (w.heap a) ca in
      rw (channel_written P a b w ca sb) (
        Closed-store D w.heap w.next h a _ old (store-Grows w.heap a _ plain)
          (Linked-new w.heap b _ held sb).0)
  channel-Keeps_met (object a) v w held h met = ground arith
  channel-Keeps_met self v w held h met = ground arith

  pub channel_initialize-Keeps :
      (self v : Value) → Held v → Keeps IsClosed (Channel.m_initialize P self v)
  channel_initialize-Keeps self v held = record {
    at = λ w h.
        elim (Bool-cases (object_is is_channel w.heap self && object_is is_session w.heap v)) [
          | inl met ↦ channel-Keeps_met self v w held h met
          | inr unmet ↦ rw (channel_unchanged P self v w unmet) h
        ];
  }

  new_scp-Keeps_met :
      (self v : Value) (mode : ScpMode) (path : Bytes) (w : World P.State)
      → Held v
      → IsClosed w
      → (object_is is_scp w.heap self && object_is is_session w.heap v) ≡ true
      → IsClosed (new_scp P self v mode path w).1
  new_scp-Keeps_met (object a) (object b) mode path w held h met =
      let (ca, sb) = and_parts _ _ met in
      let (old, plain) = of_is_scp (w.heap a) ca in
      rw (scp_written P mode path a b w ca sb) (
        Closed-store D w.heap w.next h a _ old (store-Grows w.heap a _ plain)
          (Linked-new w.heap b _ held sb).1)
  new_scp-Keeps_met (object a) v mode path w held h met = ground arith
  new_scp-Keeps_met self v mode path w held h met = ground arith

  new_scp-Keeps :
      (self v : Value) (mode : ScpMode) (path : Bytes)
      → Held v
      → Keeps IsClosed (new_scp P self v mode path)
  new_scp-Keeps self v mode path held = record {
    at = λ w h. elim (Bool-cases (object_is is_scp w.heap self && object_is is_session w.heap v)) [
      | inl met ↦ new_scp-Keeps_met self v mode path w held h met
      | inr unmet ↦ rw (scp_unchanged P mode path self v w unmet) h
    ];
  }

  pub scp_initialize-Keeps :
      (self v mode path : Value) → Held v → Keeps IsClosed (Scp.m_initialize P self v mode path)
  unfolding Scp.m_initialize
  scp_initialize-Keeps self v mode path held = search (keeps_rules, new_scp-Keeps) depth 12

  session-Keeps_met :
      (self : Value) (w : World P.State)
      → IsClosed w
      → object_is is_session w.heap self ≡ true
      → IsClosed (Session.m_initialize P self w).1
  session-Keeps_met (object a) w h met =
      rw (session_written P (object a) w a met)
        (Closed-store D w.heap w.next h a _ (ground arith) (session-Grows w.heap a _) tt)
  session-Keeps_met self w h met = ground arith

  pub session_initialize-Keeps : (self : Value) → Keeps IsClosed (Session.m_initialize P self)
  session_initialize-Keeps self = record {
    at = λ w h. elim (Bool-cases (object_is is_session w.heap self)) [
      | inl met ↦ session-Keeps_met self w h met
      | inr unmet ↦ rw (session_unchanged P self w unmet) h
    ];
  }

  key-Keeps_met :
      (self : Value) (w : World P.State)
      → IsClosed w
      → object_is is_key w.heap self ≡ true
      → IsClosed (Key.m_initialize P self w).1
  key-Keeps_met (object a) w h met =
      let (old, plain) = of_is_key (w.heap a) met in
      rw (key_written P (object a) w a met)
        (Closed-store D w.heap w.next h a _ old (store-Grows w.heap a _ plain) tt)
  key-Keeps_met self w h met = ground arith

  pub key_initialize-Keeps : (self : Value) → Keeps IsClosed (Key.m_initialize P self)
  key_initialize-Keeps self = record {
    at = λ w h. elim (Bool-cases (object_is is_key w.heap self)) [
      | inl met ↦ key-Keeps_met self w h met
      | inr unmet ↦ rw (key_unchanged P self w unmet) h
    ];
  }

  outcome-IsClosed :
      (s : Handle) (rc : ℤ) (v : Value) (w : World P.State)
      → IsClosed w
      → IsClosed (outcome P s rc v w).1
  outcome-IsClosed s rc v w h = elim (Bool-cases (rc ==ℤ P.ssh_error)) [
    | inl bad ↦ rw bad h
    | inr good ↦ rw good h
  ]

  publickey-Keeps_met :
      (self : Value) (w : World P.State)
      → IsClosed w
      → object_is is_session w.heap self ≡ true
      → IsClosed (m_get_publickey P self w).1
  publickey-Keeps_met (object a) w h met =
      rw
        (get_publickey_lem P a (session_handle (w.heap a)) w (session_some (w.heap a) met)
          (λ e. ground (arith, h.fresh w.next (omega arith), ap w.heap e)))
        (outcome-IsClosed _ _ _ _ (Closed-alloc D w.heap w.next h _))
  publickey-Keeps_met self w h met = ground arith

  pub get_publickey-Keeps : (self : Value) → Keeps IsClosed (m_get_publickey P self)
  get_publickey-Keeps self = record {
    at = λ w h. elim (Bool-cases (object_is is_session w.heap self)) [
      | inl met ↦ publickey-Keeps_met self w h met
      | inr unmet ↦ rw (publickey_unchanged P self w unmet) h
    ];
  }
