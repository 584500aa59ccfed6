-- ===== src/Gc/Generations/Barrier.antt =====
-- `initialize` writes the session into the holder and announces nothing: this is safe for an object
-- that is young, and not for one that is old.
use libssh_ruby.Base.{
  ℕ, ◌≡◌, ◌≢◌, refl, sym, ap, ◌∙◌, ◌⊎◌, inl, inr, true, false, List, some, Bytes, ◌==◌, ==_iff,
  Bool-cases, arith,
}
use libssh_ruby.Value.{Value, object}
use libssh_ruby.Libssh.{Platform, Handle, ScpMode, ssh_channel_new, ssh_scp_new}
use libssh_ruby.Runtime.{session, channel, scp, Heap, World}
use libssh_ruby.Runtime.Trace.{reply}
use libssh_ruby.Channel
use libssh_ruby.Scp.{new_scp}
use libssh_ruby.Gc.{marks}
use libssh_ruby.Gc.Live.{In, Live}
use libssh_ruby.Gc.Generations.{
  Generations, scanned, MinorLive, Freed, Remembers, root, old_root, marked,
}

module _ (roots : List ℕ) (g : Generations) (h : Heap) (kept : Remembers g h) where
  MinorLive-marked :
      (a b : ℕ)
      → (g.old a ≡ true) ⊎ MinorLive roots g h a
      → marks (h a) ≡ some (object b)
      → (g.old b ≡ true) ⊎ MinorLive roots g h b
  MinorLive-marked a b (inr l) e = elim (Bool-cases (scanned g (h a) a)) [
    | inl seen ↦ inr (marked l seen e)
    | inr unseen ↦ inl (kept a b unseen e)
  ]
  MinorLive-marked a b (inl o) e = elim (Bool-cases (scanned g (h a) a)) [
    | inl seen ↦ inr (marked (old_root o seen) seen e)
    | inr unseen ↦ inl (kept a b unseen e)
  ]

  -- Where the barrier is kept, a minor collection reaches every young object that is live.
  pub Live-MinorLive : {a : ℕ} → Live roots h a → (g.old a ≡ true) ⊎ MinorLive roots g h a
  Live-MinorLive (Live.root r) = inr (root r)
  Live-MinorLive (Live.marked {a = x} {b = b} l e) = MinorLive-marked x b (Live-MinorLive l) e

  Freed-dead : (a : ℕ) → Freed roots g h a → ¬ Live roots h a
  Freed-dead a (young, unreached) l = elim (Live-MinorLive l) [ inl o ↦ cc | inr m ↦ unreached m ]

module _ (P : Platform) (a : ℕ) (v : Value) (w : World P.State) (x : ℕ) (ne : a ≢ x) where
  channel_elsewhere : (Channel.m_initialize P (object a) v w).1.heap x ≡ w.heap x
  unfolding Channel.m_initialize
  channel_elsewhere = ground arith

  scp_elsewhere :
      (mode : ScpMode) (path : Bytes) → (new_scp P (object a) v mode path w).1.heap x ≡ w.heap x
  unfolding new_scp
  scp_elsewhere mode path = ground arith

true-ne-false : true ≢ false
true-ne-false e = cc

-- A heap that differs from another at one address only.
abbrev Elsewhere : ℕ → Heap → Heap → Type 0
Elsewhere a h k = (x : ℕ) → a ≢ x → k x ≡ h x

not_same : (a x : ℕ) → (a == x) ≡ false → a ≢ x
not_same a x other same = ground (arith, (==_iff a x).1 same)

module _ (g : Generations) (a : ℕ) (h k : Heap) (elsewhere : Elsewhere a h k) where
  Remembers-write : g.old a ≡ false → Remembers g h → Remembers g k
  Remembers-write young kept x b unseen e = elim (Bool-cases (a == x)) [
    | inl same ↦ ground (arith, (==_iff a x).0 same)
    | inr other ↦
        let still = elsewhere x (not_same a x other) in
        kept x b (ap (λ y. scanned g y x) (sym still) ∙ unseen) (ap marks (sym still) ∙ e)
  ]

  module _ (roots : List ℕ) (unseen : scanned g (k a) a ≡ false) where
    scanned-write : (x : ℕ) → scanned g (k x) x ≡ true → k x ≡ h x
    scanned-write x seen = elim (Bool-cases (a == x)) [
      | inl same ↦
          let e = (==_iff a x).0 same in
          absurd (true-ne-false (sym seen ∙ ap (λ y. scanned g (k y) y) (sym e) ∙ unseen))
      | inr other ↦ elsewhere x (not_same a x other)
    ]

    -- An object that is not looked into makes no difference to what is reached.
    MinorLive-write : {c : ℕ} → MinorLive roots g k c → MinorLive roots g h c
    MinorLive-write (root r) = root r
    MinorLive-write (old_root {a = x} o seen) =
        old_root o (ap (λ y. scanned g y x) (sym (scanned-write x seen)) ∙ seen)
    MinorLive-write (marked {a = x} {b = b} l seen e) =
        let still = sym (scanned-write x seen) in
        marked (MinorLive-write l) (ap (λ y. scanned g y x) still ∙ seen) (ap marks still ∙ e)

module _ (P : Platform) (a b : ℕ) (c s : Handle) (v : Value) (w : World P.State)
    (here : w.heap a ≡ some (channel c v)) (there : w.heap b ≡ some (session s)) where
  channel_holder :
      (Channel.m_initialize P (object a) (object b) w).1.heap a
      ≡ some (channel (reply P (ssh_channel_new s) w) (object b))
  unfolding Channel.m_initialize
  channel_holder = ground arith

module _ (P : Platform) (a b : ℕ) (p s : Handle) (v : Value) (w : World P.State)
    (here : w.heap a ≡ some (scp p v)) (there : w.heap b ≡ some (session s)) where
  scp_holder :
      (mode : ScpMode) (path : Bytes)
      → (new_scp P (object a) (object b) mode path w).1.heap a
        ≡ some (scp (reply P (ssh_scp_new s mode path) w) (object b))
  unfolding new_scp
  scp_holder mode path = ground arith

-- A young root is looked into.
young_leads :
    (roots : List ℕ) (g : Generations) (h : Heap) (a b : ℕ)
    → In roots a
    → g.old a ≡ false
    → marks (h a) ≡ some (object b)
    → MinorLive roots g h b
young_leads roots g h a b rooted young e = marked (root rooted) (rw young refl) e

module _ (P : Platform) (a e b : ℕ) (c p s : Handle) (u v : Value) (w : World P.State)
    (a_here : w.heap a ≡ some (channel c u)) (e_here : w.heap e ≡ some (scp p v))
    (there : w.heap b ≡ some (session s)) where
  -- Where the write barrier was kept so far, and a channel or an scp that the program refers to and
  -- that is still young is initialized for a session, and libssh makes the channel or the scp, a
  -- minor collection reaches the session through it afterwards, and no object at all that the
  -- collection can free is live. Both are shown of one state with a channel and an scp.
  pub initialize_young :
      (g : Generations) (roots : List ℕ) (mode : ScpMode) (path : Bytes) (d q : ℕ)
      → In roots a
      → In roots e
      → g.old a ≡ false
      → g.old e ≡ false
      → Remembers g w.heap
      → reply P (ssh_channel_new s) w ≡ some d
      → reply P (ssh_scp_new s mode path) w ≡ some q
      → let h = (Channel.m_initialize P (object a) (object b) w).1.heap in
        let k = (new_scp P (object e) (object b) mode path w).1.heap in
        (MinorLive roots g h b × ((x : ℕ) → Freed roots g h x → ¬ Live roots h x))
        × (MinorLive roots g k b × ((x : ℕ) → Freed roots g k x → ¬ Live roots k x))
  initialize_young g roots mode path d q a_root e_root a_young e_young kept made_c made_p =
      let h = (Channel.m_initialize P (object a) (object b) w).1.heap in
      let k = (new_scp P (object e) (object b) mode path w).1.heap in
      let held_h : h a ≡ some (channel (some d) (object b)) =
        channel_holder P a b c s u w a_here there ∙ ap (λ y. some (channel y (object b))) made_c in
      let held_k : k e ≡ some (scp (some q) (object b)) =
        scp_holder P e b p s v w e_here there mode path
        ∙ ap (λ y. some (scp y (object b))) made_p in
      let kept_h = Remembers-write g a w.heap h (channel_elsewhere P a (object b) w) a_young kept in
      let kept_k =
        Remembers-write g e w.heap k (λ x ne. scp_elsewhere P e (object b) w x ne mode path) e_young
          kept in
      (
        (young_leads roots g h a b a_root a_young (ap marks held_h), Freed-dead roots g h kept_h),
        (young_leads roots g k e b e_root e_young (ap marks held_k), Freed-dead roots g k kept_k),
      )

module _ (P : Platform) (a b : ℕ) (c s : Handle) (v : Value) (w : World P.State)
    (here : w.heap a ≡ some (channel c v)) (there : w.heap b ≡ some (session s)) where
  -- Where a channel that is already old, and not remembered, is initialized for a young session
  -- that nothing else leads a minor collection to, and libssh makes a channel, the session is live
  -- afterwards, and yet a minor collection can free it.
  pub initialize_old :
      (g : Generations) (roots : List ℕ) (d : ℕ)
      → In roots a
      → g.old a ≡ true
      → g.remembered a ≡ false
      → g.old b ≡ false
      → ¬ MinorLive roots g w.heap b
      → reply P (ssh_channel_new s) w ≡ some d
      → let h = (Channel.m_initialize P (object a) (object b) w).1.heap in
        Live roots h b × Freed roots g h b
  initialize_old g roots d rooted old unremembered young unreached made =
      let h = (Channel.m_initialize P (object a) (object b) w).1.heap in
      let held : h a ≡ some (channel (some d) (object b)) =
        channel_holder P a b c s v w here there ∙ ap (λ y. some (channel y (object b))) made in
      let unseen : scanned g (h a) a ≡ false = rw (held, old, unremembered) refl in
      (
        Live.marked (Live.root rooted) (ap marks held),
        (
          young,
          λ m.
              unreached
                (MinorLive-write g a w.heap h (channel_elsewhere P a (object b) w) roots unseen m),
        ),
      )
