-- ===== src/Sound/Reachable.antt =====
-- Calls of methods in the states that a process reaches.
use libssh_ruby.Base.{ℕ, ◌≡◌, ◌≢◌, refl, ap, ◌∙◌, List, Option, some, none, arith}
use libssh_ruby.Value.{Value, object, fault}
use libssh_ruby.Libssh.{Platform}
use libssh_ruby.Runtime.{World, Holder, Heap, Action, scp}
use libssh_ruby.Runtime.Keeps.{Keeps}
use libssh_ruby.Methods.{
  Method, ChannelMethod, ScpMethod, of_session, of_channel, of_scp, of_key, open_session,
  open_forward, init, run,
}
use libssh_ruby.Gc.Closed.{Linked, Closed, Linked-allocated}
use libssh_ruby.Gc.Live.{In, Live, Closed-Live}
use libssh_ruby.Gc.Methods.{IsKept, Referred, ChannelHeld, ScpHeld}
use libssh_ruby.Gc.System.{Allowed, Reach}
use libssh_ruby.Gc.System.Invariant.{Reach-Invariant}
use libssh_ruby.Sound.{Honest, Allocated, Kept, Opened}
use libssh_ruby.Sound.Keys
use libssh_ruby.Sound.Sessions.{run_session_sound}
use libssh_ruby.Sound.Channels.{ChannelArguments, run_channel_sound}
use libssh_ruby.Sound.Scps.{ScpArguments, run_scp_sound}
use libssh_ruby.Sound.Keys.{Plain, run_key_sound}
use libssh_ruby.Sound.Blocks.{open_session_sound, open_forward_sound, init_sound}

module _ (P : Platform) (roots : List ℕ) (w : World P.State) (kept : IsKept roots w) where
  Referred-Allocated : (v : Value) → Referred roots v → Allocated w.heap v
  Referred-Allocated (object b) root =
      Linked-allocated (Live roots w.heap) w.heap (w.heap b) (kept.linked b (Live.root root))
  Referred-Allocated v root = tt

  ChannelHeld-Arguments : (m : ChannelMethod) → ChannelHeld P roots m → ChannelArguments w.heap m
  ChannelHeld-Arguments (ChannelMethod.initialize v) held = Referred-Allocated v held
  ChannelHeld-Arguments m held = tt

  ScpHeld-Arguments : (m : ScpMethod) → ScpHeld P roots m → ScpArguments w.heap m
  ScpHeld-Arguments (ScpMethod.initialize v mode path) held = Referred-Allocated v held
  ScpHeld-Arguments m held = tt

module _ (D : ℕ → Type 0) (h : Heap) (n : ℕ) (closed : Closed D h n) where
  -- What an scp that is not NULL keeps is allocated.
  Linked-Kept :
      (o : Option Holder) → Linked D h o → Opened o → (x : Holder) × (o ≡ some x) × Kept h x
  Linked-Kept (some (scp (some p) (object b))) l opened =
      (_, refl, Linked-allocated D h (h b) (closed.linked b l.0))
  Linked-Kept (some (scp (some p) v)) l opened = absurd l
  Linked-Kept (some (scp none (object b))) l opened = absurd opened
  Linked-Kept (some (scp none v)) l opened = (_, refl, tt)
  Linked-Kept (some x) l opened = (x, refl, tt)
  Linked-Kept none l opened = absurd l

module _ (P : Platform) (roots : List ℕ) (a : ℕ) where
  -- A block returns or raises where what the roots lead to is there.
  abbrev pub Returns : Action P.State Value → Type 0
  Returns block = (w : World P.State) → IsKept roots w → (block w).0 ≢ fault

  -- What is asked of a call: it is not `sha1`, and its block returns or raises; the block of `init`
  -- leaves no NULL in the scp.
  abbrev pub Harmless : Method P.State → Type 0
  Harmless (of_key m) = Plain m
  Harmless (open_session (some block)) = Returns block
  Harmless (open_forward (some block) host port) = Returns block
  Harmless (init block) =
      Returns block
      × ((w : World P.State) → IsKept roots w → Opened (w.heap a) → Opened ((block w).1.heap a))
  Harmless _ = Unit

module _ (P : Platform) (honest : Honest P) (roots : List ℕ) (w : World P.State)
    (kept : IsKept roots w) (a : ℕ) (root : In roots a) where
  here : w.heap a ≢ none
  here = Linked-allocated (Live roots w.heap) w.heap (w.heap a) (kept.linked a (Live.root root))

  old : a ≢ w.next
  old e = here (ap w.heap e ∙ kept.fresh w.next (omega arith))

  module _ (block : Action P.State Value) (keeps : Keeps (IsKept roots) block)
      (returns : Returns P roots a block) where
    IsKept-at : (w' : World P.State) → w'.heap ≡ w.heap → w'.next ≡ w.next → IsKept roots w'
    IsKept-at w' same still = rw (same, still) kept

    Returns-at : (w' : World P.State) → w'.heap ≡ w.heap → w'.next ≡ w.next → (block w').0 ≢ fault
    Returns-at w' same still = returns w' (IsKept-at w' same still)

    here_behind :
        (w' : World P.State) → w'.heap ≡ w.heap → w'.next ≡ w.next → (block w').1.heap a ≢ none
    here_behind w' same still =
        Linked-allocated (Live roots (block w').1.heap) (block w').1.heap ((block w').1.heap a)
          ((keeps.at w' (IsKept-at w' same still)).linked a (Live.root root))

    Kept-behind :
        Opened (w.heap a)
        → ((w' : World P.State)
            → IsKept roots w'
            → Opened (w'.heap a)
            → Opened ((block w').1.heap a))
        → (w' : World P.State) → w'.heap ≡ w.heap
        → w'.next ≡ w.next
        → (x : Holder) × ((block w').1.heap a ≡ some x) × Kept (block w').1.heap x
    Kept-behind opened leaves w' same still =
        let behind = keeps.at w' (IsKept-at w' same still) in
        Linked-Kept (Live roots (block w').1.heap) (block w').1.heap (block w').1.next behind
          ((block w').1.heap a) (behind.linked a (Live.root root))
          (leaves w' (IsKept-at w' same still) (rw same opened))

  Kept-here : Opened (w.heap a) → (x : Holder) × (w.heap a ≡ some x) × Kept w.heap x
  Kept-here opened =
      Linked-Kept (Live roots w.heap) w.heap w.next kept (w.heap a) (kept.linked a (Live.root root))
        opened

  run_sound :
      Opened (w.heap a)
      → (m : Method P.State) → Allowed P roots m
      → Harmless P roots a m
      → (run P m (object a) w).0 ≢ fault
  unfolding run
  run_sound opened (of_session m) held sound = run_session_sound P honest a w here old m
  run_sound opened (of_channel m) held sound =
      run_channel_sound P honest a w here m (ChannelHeld-Arguments P roots w kept m held)
  run_sound opened (of_scp m) held sound =
      let (x, is_x, kept_x) = Kept-here opened in
      run_scp_sound P honest a w x is_x kept_x m (ScpHeld-Arguments P roots w kept m held)
  run_sound opened (of_key m) held sound = run_key_sound P honest a w here m sound
  run_sound opened (open_session none) held sound = Keys.open_session_sound P honest a w here
  run_sound opened (open_session (some block)) held returns =
      open_session_sound P honest a w here block (Returns-at block (held block refl) returns)
        (here_behind block (held block refl) returns)
  run_sound opened (open_forward none host port) held sound =
      Keys.open_forward_sound P honest a w here host port
  run_sound opened (open_forward (some block) host port) held returns =
      open_forward_sound P honest a w here block (Returns-at block (held block refl) returns)
        (here_behind block (held block refl) returns) host port
  run_sound opened (init block) held (returns, leaves) =
      let (x, is_x, kept_x) = Kept-here opened in
      init_sound P honest a w x is_x kept_x block (Returns-at block held returns)
        (Kept-behind block held returns opened leaves)

module _ (P : Platform) (honest : Honest P) where
  -- In every state that a process reaches, a call of a method on an object that the process refers
  -- to does not fault, whatever its arguments are. The objects among the arguments are referred to
  -- as well, the method is not `sha1`, and a block returns or raises, and leaves what marking
  -- reaches allocated. If the object is an scp that keeps a session, its scp is not NULL, and is
  -- none behind the block of `init`. Libssh writes no more than a buffer holds, and the
  -- conversions of Ruby return or raise.
  pub Reach-run_sound :
      {s : P.State} {roots : List ℕ} {w : World P.State}
      → Reach P s roots w
      → (a : ℕ) (m : Method P.State) → In roots a
      → Allowed P roots m
      → Harmless P roots a m
      → Opened (w.heap a)
      → (run P m (object a) w).0 ≢ fault
  Reach-run_sound {roots = roots} {w = w} r a m root allowed harmless opened =
      let (D, rooted, closed) = Reach-Invariant P r in
      run_sound P honest roots w (Closed-Live D w.heap w.next closed roots rooted) a root opened m
        allowed harmless
