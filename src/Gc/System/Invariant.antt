-- ===== src/Gc/System/Invariant.antt =====
-- In every reachable state the session of a live channel or scp is live and allocated.
use libssh_ruby.Base.{
  ℕ, suc, ◌≡◌, ◌≢◌, refl, ap, ℤ, ◌⊎◌, inl, inr, true, List, ◌∷◌, Option, none, some, arith,
}
use libssh_ruby.Value.{Value, object}
use libssh_ruby.Libssh.{Handle, Platform, ssh_get_publickey}
use libssh_ruby.Runtime.{Holder, session, key, channel, scp, World, Heap, update}
use libssh_ruby.Error.Outcome.{outcome}
use libssh_ruby.Key.Laws.{get_publickey_lem}
use libssh_ruby.Session.Connection.{m_get_publickey}
use libssh_ruby.Key.{key_free}
use libssh_ruby.Session.{session_free}
use libssh_ruby.Channel.{channel_free}
use libssh_ruby.Scp.{scp_free}
use libssh_ruby.Gc.{marks, sweep}
use libssh_ruby.Gc.Closed.{is_session, Linked, Closed, Closed-alloc, Closed-free}
use libssh_ruby.Gc.Live.{In, Live, Linked-value, Linked-object, Linked-in, Closed-Live}
use libssh_ruby.Gc.Writes.{session_handle, session_some}
use libssh_ruby.Channel.Select.Keeps.{s_select-Keeps}
use libssh_ruby.Gc.Initialize.{IsClosed, get_publickey-Keeps}
use libssh_ruby.Gc.Methods.{run-IsKept}
use libssh_ruby.Gc.System.{
  select, Class, session_class, key_class, channel_class, scp_class, alloc_of, Step, alloc, send,
  new_key, forget, collect, Reach, start, next,
}

-- A closed set that holds the roots.
abbrev pub Invariant : {S : Type 0} → List ℕ → World S → Type 1
Invariant roots w = (D : ℕ → Type 0) × ((a : ℕ) → In roots a → D a) × Closed D w.heap w.next

-- The session that the structure of libssh behind an object works on: a channel and an scp that
-- are not NULL were made for the session that the holder keeps.
abbrev pub works_on : Option Holder → Option Value
works_on (some (channel (some c) v)) = some v
works_on (some (scp (some p) v)) = some v
works_on _ = none

works_on-marks : (x : Option Holder) (v : Value) → works_on x ≡ some v → marks x ≡ some v
works_on-marks none v e = e
works_on-marks (some (session s)) v e = ground arith
works_on-marks (some (key k)) v e = ground arith
works_on-marks (some (channel none u)) v e = ground arith
works_on-marks (some (channel (some c) u)) v e = e
works_on-marks (some (scp none u)) v e = ground arith
works_on-marks (some (scp (some p) u)) v e = e

-- An object that marks nothing can join a closed set.
module _ (D : ℕ → Type 0) (h : Heap) (n : ℕ) (closed : Closed D h n) (b : ℕ) (x : Holder)
    (here : h b ≡ some x) (unmarked : marks (some x) ≡ none) where
  abbrev Grown : ℕ → Type 0
  Grown a = D a ⊎ (a ≡ b)

  Grown-Linked : (a : ℕ) → Grown a → Linked Grown h (h a)
  Grown-Linked a (inl d) =
      Linked-in D Grown h (h a) (λ c e. inl (Linked-object D h (h a) c (closed.linked a d) e).0)
        (closed.linked a d)
  Grown-Linked a (inr e) = rw (e, here, unmarked) tt

  Closed-Grown : Closed Grown h n
  Closed-Grown = record { fresh = closed.fresh; linked = Grown-Linked }

  Grown-roots :
      (roots : List ℕ) → ((a : ℕ) → In roots a → D a) → (a : ℕ) → In (b ∷ roots) a → Grown a
  Grown-roots roots rooted a (inl e) = inr e
  Grown-roots roots rooted a (inr r) = inl (rooted a r)

module _ (P : Platform) where
  pub fresh_holder :
      (k : Class) (w : World P.State)
      → (x : Holder) × ((alloc_of P k w).1
          ≡ record w { heap = update w.heap w.next (some x); next = suc w.next })
        × (marks (some x) ≡ none)
  unfolding alloc_of
  fresh_holder session_class w = (_, refl, refl)
  fresh_holder key_class w = (_, refl, refl)
  fresh_holder channel_class w = (_, refl, refl)
  fresh_holder scp_class w = (_, refl, refl)

  alloc-Invariant :
      (k : Class) (roots : List ℕ) (w : World P.State)
      → Invariant roots w
      → Invariant (w.next ∷ roots) (alloc_of P k w).1
  alloc-Invariant k roots w (D, rooted, closed) =
      let (x, e, plain) = fresh_holder k w in
      let here : update w.heap w.next (some x) w.next ≡ some x = ground arith in
      let grown = Closed-alloc D w.heap w.next closed x in
      rw e (
        Grown D _ _ grown w.next x here plain,
        Grown-roots D _ _ grown w.next x here plain roots rooted,
        Closed-Grown D _ _ grown w.next x here plain,
      )

  outcome_heap :
      (s : Handle) (rc : ℤ) (v : Value) (w : World P.State) → (outcome P s rc v w).1.heap ≡ w.heap
  outcome_heap s rc v w = ground arith

  -- `get_publickey` of a session ends with a key at the address that was free.
  new_key_here :
      (a : ℕ) (w : World P.State)
      → w.heap w.next ≡ none
      → is_session (w.heap a) ≡ true
      → (k : Handle) × ((m_get_publickey P (object a) w).1.heap w.next ≡ some (key k))
  new_key_here a w free met =
      let ne : a ≢ w.next = λ e. ground (arith, free, ap w.heap e) in
      (
        (P.answer (ssh_get_publickey (session_handle (w.heap a))) w.ssh).0.1,
        rw
            (
              get_publickey_lem P a (session_handle (w.heap a)) w (session_some (w.heap a) met) ne,
              outcome_heap,
            )
            (ground arith),
      )

  new_key-Invariant :
      (a : ℕ) (roots : List ℕ) (w : World P.State)
      → is_session (w.heap a) ≡ true
      → Invariant roots w
      → Invariant (w.next ∷ roots) (m_get_publickey P (object a) w).1
  new_key-Invariant a roots w met (D, rooted, closed) =
      let (k, here) = new_key_here a w (closed.fresh w.next (omega arith)) met in
      let kept = (get_publickey-Keeps P D (object a)).at w closed in
      (
        Grown D _ _ kept w.next (key k) here refl,
        Grown-roots D _ _ kept w.next (key k) here refl roots rooted,
        Closed-Grown D _ _ kept w.next (key k) here refl,
      )

  pub swept_heap :
      (a : ℕ) (x : Holder) (w : World P.State)
      → w.heap a ≡ some x
      → ((sweep P a w).1.heap ≡ update w.heap a none) × ((sweep P a w).1.next ≡ w.next)
  unfolding sweep session_free key_free channel_free scp_free
  swept_heap a x w here = (ground arith, ground arith)

  collect-Invariant :
      (a : ℕ) (x : Holder) (roots : List ℕ) (w : World P.State)
      → w.heap a ≡ some x
      → ¬ Live roots w.heap a
      → Invariant roots w
      → Invariant roots (sweep P a w).1
  collect-Invariant a x roots w here dead (D, rooted, closed) =
      let (h, n) = swept_heap a x w here in
      (
        Live roots w.heap,
        λ b r. Live.root r,
        rw (h, n)
            (Closed-free (Live roots w.heap) w.heap w.next
              (Closed-Live D w.heap w.next closed roots rooted) a dead),
      )

  pub Step-Invariant :
      {roots kept : List ℕ} {w w' : World P.State}
      → Step P roots w kept w'
      → Invariant roots w
      → Invariant kept w'
  Step-Invariant {roots} {w} (alloc k) i = alloc-Invariant k roots w i
  Step-Invariant {roots} {w} (send a m r allowed) (D, rooted, closed) = (
    _,
    λ b root. Live.root root,
    (run-IsKept P roots m (object a) allowed).at w
        (Closed-Live D w.heap w.next closed roots rooted),
  )
  Step-Invariant {roots} {w} (new_key a r met) i = new_key-Invariant a roots w met i
  Step-Invariant {w} (select r q e t) (D, rooted, closed) =
      (D, rooted, (s_select-Keeps P (IsClosed P D) (λ c u h. h) (λ n u h. h) r q e t).at w closed)
  Step-Invariant (forget kept sub) (D, rooted, closed) = (D, λ a r. rooted a (sub a r), closed)
  Step-Invariant {roots} {w} (collect a x here dead) i = collect-Invariant a x roots w here dead i

  pub Reach-Invariant :
      {s : P.State} {roots : List ℕ} {w : World P.State} → Reach P s roots w → Invariant roots w
  Reach-Invariant start =
      (λ a. ⊥, λ a r. r, record { fresh = λ b le. refl; linked = λ a d. absurd d })
  Reach-Invariant (next r st) = Step-Invariant st (Reach-Invariant r)

  -- In every state that a process reaches, where a live object holds a channel or an scp that is
  -- not NULL, its session is an object that is live, and still allocated as a session: a live
  -- channel or scp of libssh never outlives the session that it works on.
  pub Reach-session-Live :
      {s : P.State} {roots : List ℕ} {w : World P.State}
      → Reach P s roots w
      → (a : ℕ) → Live roots w.heap a
      → (v : Value) → works_on (w.heap a) ≡ some v
      → (b : ℕ) × (v ≡ object b) × Live roots w.heap b × (is_session (w.heap b) ≡ true)
  Reach-session-Live {roots} {w} r a l v e =
      let (D, rooted, closed) = Reach-Invariant r in
      let live = Closed-Live D w.heap w.next closed roots rooted in
      Linked-value (Live roots w.heap) w.heap (w.heap a) v (live.linked a l)
        (works_on-marks (w.heap a) v e)
