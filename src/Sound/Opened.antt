-- ===== src/Sound/Opened.antt =====
-- Where `ssh_scp_new` never returns NULL, no scp that keeps a session is NULL.
use libssh_ruby.Base.{
  ℕ, ◌==◌, ◌≡◌, ◌≢◌, Bool-cases, inl, inr, true, ◌&&◌, Bytes, Option, none, some, refl, arith,
}
use libssh_ruby.Value.{Value, object}
use libssh_ruby.Libssh.{Handle, Platform, ScpMode, ssh_scp_new}
use libssh_ruby.Runtime.{Holder, Heap, World, session, key, channel, scp, update}
use libssh_ruby.Runtime.Keeps.{Keeps, Stable, keeps_rules}
use libssh_ruby.Runtime.Objects.{store}
use libssh_ruby.Runtime.Trace.{reply}
use libssh_ruby.Key
use libssh_ruby.Key.{key_alloc}
use libssh_ruby.Session
use libssh_ruby.Session.Connection.{m_get_publickey}
use libssh_ruby.Channel
use libssh_ruby.Scp
use libssh_ruby.Scp.{new_scp}
use libssh_ruby.Gc.Writes.{object_is, is_scp, session_handle, and_parts, scp_written, scp_unchanged}
use libssh_ruby.Gc.Closed.{is_session}
use libssh_ruby.Methods.{Method, run}
use libssh_ruby.Gc.Keeper.{Keeper, MethodFit, run-keeper}
use libssh_ruby.Sound.{Opened}

abbrev pub AllOpened : {S : Type 0} → World S → Type 0
AllOpened w = (e : ℕ) → Opened (w.heap e)

-- What libssh documents of `ssh_scp_new` where memory does not run out.
abbrev pub MakesScps : Platform → Type 0
MakesScps P =
    (s : Handle) (mode : ScpMode) (path : Bytes) (st : P.State)
    → (P.answer (ssh_scp_new s mode path) st).0 ≢ none

abbrev pub AnyValue : Value → Type 0
AnyValue v = Unit

pub Opened-update :
    (h : Heap) (a : ℕ) (x : Option Holder)
    → Opened x
    → ((e : ℕ) → Opened (h e))
    → (e : ℕ) → Opened (update h a x e)
Opened-update h a x new old e = elim (Bool-cases (a == e)) [
  | inl same ↦ rw same new
  | inr other ↦ rw other (old e)
]

Opened-scp : (p : Handle) (v : Value) → p ≢ none → Opened (some (scp p v))
Opened-scp (some p) v made = tt
Opened-scp none v made = absurd (made refl)

stable : (P : Platform) → Stable P AllOpened
stable P c w old = old

module _ {S : Type 0} where
  Keeps-store_session : (a : ℕ) (s : Handle) → Keeps {S = S} AllOpened (store a (session s))
  unfolding store
  Keeps-store_session a s = record {
    at = λ w old. Opened-update w.heap a (some (session s)) tt old;
  }

  Keeps-store_key : (a : ℕ) (k : Handle) → Keeps {S = S} AllOpened (store a (key k))
  unfolding store
  Keeps-store_key a k = record { at = λ w old. Opened-update w.heap a (some (key k)) tt old }

  Keeps-store_channel :
      (a : ℕ) (c : Handle) (v : Value) → Keeps {S = S} AllOpened (store a (channel c v))
  unfolding store
  Keeps-store_channel a c v = record {
    at = λ w old. Opened-update w.heap a (some (channel c v)) tt old;
  }

  -- Where the scp is made is not NULL.
  Keeps-store_scp :
      (a : ℕ) (p : Handle) (v : Value) → p ≢ none → Keeps {S = S} AllOpened (store a (scp p v))
  unfolding store
  Keeps-store_scp a p v made = record {
    at = λ w old. Opened-update w.heap a (some (scp p v)) (Opened-scp p v made) old;
  }

module _ (P : Platform) where
  Keeps-key_alloc : Keeps AllOpened (key_alloc P)
  unfolding key_alloc
  Keeps-key_alloc = record { at = λ w old. Opened-update w.heap w.next (some (key none)) tt old }

  session_initialize-AllOpened : (self : Value) → Keeps AllOpened (Session.m_initialize P self)
  unfolding Session.m_initialize
  session_initialize-AllOpened self = search (keeps_rules, Keeps-store_session, stable P) depth 12

  key_initialize-AllOpened : (self : Value) → Keeps AllOpened (Key.m_initialize P self)
  unfolding Key.m_initialize
  key_initialize-AllOpened self = search (keeps_rules, Keeps-store_key, stable P) depth 12

  publickey-AllOpened : (self : Value) → Keeps AllOpened (m_get_publickey P self)
  unfolding m_get_publickey
  publickey-AllOpened self =
      search (keeps_rules, Keeps-store_key, Keeps-key_alloc, stable P) depth 16

  channel_initialize-AllOpened :
      (self v : Value) → AnyValue v → Keeps AllOpened (Channel.m_initialize P self v)
  unfolding Channel.m_initialize
  channel_initialize-AllOpened self v any =
      search (keeps_rules, Keeps-store_channel, stable P) depth 12

module _ (P : Platform) (makes : MakesScps P) where
  new_scp-AllOpened_met :
      (self v : Value) (mode : ScpMode) (path : Bytes) (w : World P.State)
      → AllOpened w
      → (object_is is_scp w.heap self && object_is is_session w.heap v) ≡ true
      → AllOpened (new_scp P self v mode path w).1
  new_scp-AllOpened_met (object a) (object b) mode path w old met =
      let (ca, sb) = and_parts _ _ met in
      let s = session_handle (w.heap b) in
      let p = reply P (ssh_scp_new s mode path) w in
      rw (scp_written P mode path a b w ca sb) (
        Opened-update w.heap a (some (scp p (object b)))
          (Opened-scp p (object b) (makes s mode path w.ssh)) old)
  new_scp-AllOpened_met (object a) v mode path w old met = ground arith
  new_scp-AllOpened_met self v mode path w old met = ground arith

  new_scp-AllOpened :
      (self v : Value) (mode : ScpMode) (path : Bytes)
      → Keeps AllOpened (new_scp P self v mode path)
  new_scp-AllOpened self v mode path = record {
    at = λ w old.
        elim (Bool-cases (object_is is_scp w.heap self && object_is is_session w.heap v)) [
          | inl met ↦ new_scp-AllOpened_met self v mode path w old met
          | inr unmet ↦ rw (scp_unchanged P mode path self v w unmet) old
        ];
  }

  scp_initialize-AllOpened :
      (self v mode path : Value)
      → AnyValue v
      → Keeps AllOpened (Scp.m_initialize P self v mode path)
  unfolding Scp.m_initialize
  scp_initialize-AllOpened self v mode path any = search (keeps_rules, new_scp-AllOpened) depth 12

  opened_keeper : Keeper P AllOpened AnyValue
  opened_keeper = record {
    stable = stable P;
    unbuffered = λ n w old. old;
    session_initialize = session_initialize-AllOpened P;
    key_initialize = key_initialize-AllOpened P;
    get_publickey = publickey-AllOpened P;
    channel_initialize = channel_initialize-AllOpened P;
    scp_initialize = scp_initialize-AllOpened;
  }

  -- Every method keeps it, if its block does.
  pub run-AllOpened :
      (m : Method P.State) (self : Value)
      → MethodFit P AllOpened AnyValue m
      → Keeps AllOpened (run P m self)
  run-AllOpened = run-keeper P AllOpened AnyValue opened_keeper
