-- ===== src/Tests/Collection.antt =====
-- The theorems on the collector at concrete states.
use libssh_ruby.Base.{ℕ, ◌≡◌, refl, inl, inr, true, false, ◌==◌, arith, List, [], ◌∷◌, none, some}
use libssh_ruby.Value.{object, ok}
use libssh_ruby.Libssh.{ssh_free, ssh_scp_free, read_mode}
use libssh_ruby.Runtime.{scp, World, update}
use libssh_ruby.Session
use libssh_ruby.Channel
use libssh_ruby.Methods.{SessionMethod, ChannelMethod, of_session, of_channel, run}
use libssh_ruby.Gc.{sweep}
use libssh_ruby.Gc.Closed.{is_session}
use libssh_ruby.Gc.Live.{Live, root, marked}
use libssh_ruby.Gc.Generations.{Generations, MinorLive, Freed}
use libssh_ruby.Gc.Generations.Barrier.{initialize_young, initialize_old}
use libssh_ruby.Scp.{new_scp}
use libssh_ruby.Gc.System.{
  Steps, session_class, channel_class, alloc_of, Step, alloc, send, Reach, start, next, initial,
}
use libssh_ruby.Gc.System.Invariant.{Reach-session-Live}
use libssh_ruby.Gc.System.Release.{Reach-released}
use libssh_ruby.Gc.System.Order.{sweep_lem, scp_freed_late}
use libssh_ruby.Tests.{machine, world}

-- `session = Session.new; channel = Channel.new(session)`
abbrev made : World ℕ
made = (alloc_of machine session_class (initial 0)).1

abbrev connected : World ℕ
connected = (run machine (of_session SessionMethod.initialize) (object 0) made).1

abbrev made_channel : World ℕ
made_channel = (alloc_of machine channel_class connected).1

abbrev wired : World ℕ
wired = (run machine (of_channel (ChannelMethod.initialize (object 0))) (object 1) made_channel).1

abbrev held : List ℕ
held = connected.next ∷ 0 ∷ []

wired-Reach : Reach machine 0 held wired
unfolding alloc_of run Session.m_initialize
wired-Reach =
    next
      (next
        (next (next start (alloc session_class))
          (send 0 (of_session SessionMethod.initialize) (inl refl) tt))
        (alloc channel_class))
      (send 1 (of_channel (ChannelMethod.initialize (object 0))) (inl refl) (inr (inl refl)))

Reach-session-Live_example :
    (b : ℕ) × (object 0 ≡ object b) × Live held wired.heap b × (is_session (wired.heap b) ≡ true)
unfolding alloc_of run Session.m_initialize Channel.m_initialize
Reach-session-Live_example =
    Reach-session-Live machine wired-Reach 1 (root (inl refl)) (object 0) refl

Reach-released_example :
    (w' : World ℕ) × Steps machine held wired [] w'
    × ((b : ℕ) → w'.heap b ≡ none)
    × (w'.calls ≡ ssh_free (some 1) ∷ wired.calls)
unfolding alloc_of run Session.m_initialize Channel.m_initialize
Reach-released_example = Reach-released machine wired-Reach

sweep_lem_example :
    ((sweep machine 2 world).0 ≡ ok tt)
    × ((sweep machine 2 world).1.calls ≡ ssh_scp_free (some 20) ∷ [])
    × ((sweep machine 2 world).1.heap ≡ update world.heap 2 none)
    × ((sweep machine 2 world).1.next ≡ 4)
    × ((sweep machine 2 world).1.buffers ≡ 0)
sweep_lem_example = sweep_lem machine 2 (scp (some 20) (object 0)) world refl

-- With no roots nothing is live.
nothing-Live : (a : ℕ) → ¬ Live [] world.heap a
nothing-Live a (root r) = r
nothing-Live a (marked {a = b} l e) = nothing-Live b l

scp_freed_late_example :
    Step machine [] world [] (sweep machine 0 world).1
    × Step machine [] (sweep machine 0 world).1 [] (sweep machine 2 (sweep machine 0 world).1).1
    × ((sweep machine 2 (sweep machine 0 world).1).1.calls
        ≡ ssh_scp_free (some 20) ∷ ssh_free (some 1) ∷ [])
scp_freed_late_example =
    scp_freed_late machine [] 2 0 20 1 world refl refl (nothing-Live 2) (nothing-Live 0)

-- A minor collection with all objects young, and one with the channel old.
abbrev all_young : Generations
all_young = record { old = λ a. false; remembered = λ a. false }

abbrev one_old : Generations
one_old = record { old = λ a. a == 1; remembered = λ a. false }

initialize_young_example :
    let h = (Channel.m_initialize machine (object 1) (object 0) world).1.heap in
    let k = (new_scp machine (object 2) (object 0) read_mode [] world).1.heap in
    (MinorLive (1 ∷ 2 ∷ []) all_young h 0
      × ((x : ℕ) → Freed (1 ∷ 2 ∷ []) all_young h x → ¬ Live (1 ∷ 2 ∷ []) h x))
    × (MinorLive (1 ∷ 2 ∷ []) all_young k 0
        × ((x : ℕ) → Freed (1 ∷ 2 ∷ []) all_young k x → ¬ Live (1 ∷ 2 ∷ []) k x))
initialize_young_example =
    initialize_young machine 1 2 0 (some 10) (some 20) (some 1) (object 0) (object 0) world refl
      refl refl all_young (1 ∷ 2 ∷ []) read_mode [] 10 20 (inl refl) (inr (inl refl)) refl refl
      (λ a b unseen e. cc) refl refl

-- The minor collection reaches the channel, and does not look into it.
reached_one : {a : ℕ} → MinorLive (1 ∷ []) one_old world.heap a → a ≡ 1
reached_one (MinorLive.root (inl e)) = e
reached_one (MinorLive.root (inr e)) = elim e [ ]
reached_one (MinorLive.old_root {a = x} o seen) = ground arith
reached_one (MinorLive.marked {a = x} l seen e) = ground (arith, reached_one l)

initialize_old_example :
    let h = (Channel.m_initialize machine (object 1) (object 0) world).1.heap in
    Live (1 ∷ []) h 0 × Freed (1 ∷ []) one_old h 0
initialize_old_example =
    initialize_old machine 1 0 (some 10) (some 1) (object 0) world refl refl one_old (1 ∷ []) 10
      (inl refl) refl refl refl (λ m. omega (arith, reached_one m)) refl
