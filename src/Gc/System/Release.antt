-- ===== src/Gc/System/Release.antt =====
-- A process that drops its references: what the collector can release then.
use mathlib.Core.List.{append-nil, append_assoc}
use libssh_ruby.Base.{
  ℕ, zero, suc, ◌≤◌, ◌≡◌, refl, ap, ◌∙◌, sym, ==_iff, ◌==◌, Bool-cases, inl, inr, List, [], ◌++◌,
  Option, none, some, arith,
}
use libssh_ruby.Libssh.{Platform, Call}
use libssh_ruby.Runtime.{Holder, World, Heap, update}
use libssh_ruby.Gc.{sweep}
use libssh_ruby.Gc.Live.{Live, root, marked}
use libssh_ruby.Gc.System.{Steps, stay, onward, forget, collect, Reach}
use libssh_ruby.Gc.System.Invariant.{Reach-Invariant}
use libssh_ruby.Gc.System.Order.{released, sweep_lem}

abbrev released_at : Option Holder → List Call
released_at none = []
released_at (some x) = released x

-- The calls that release what the holders below an address own, the last first.
abbrev pub released_below : Heap → ℕ → List Call
released_below h zero = []
released_below h (suc n) = released_below h n ++ released_at (h n)

released_below-update :
    (h : Heap) (n m : ℕ) → m ≤ n → released_below (update h n none) m ≡ released_below h m
released_below-update h n zero le = refl
released_below-update h n (suc m) le =
    ground (arith, released_below-update h n m (omega (arith, le)))

no_root-Live : {h : Heap} {a : ℕ} → ¬ Live [] h a
no_root-Live (root r) = r
no_root-Live (marked l e) = no_root-Live l

module _ (h : Heap) (n : ℕ) (bound : (b : ℕ) → suc n ≤ b → h b ≡ none) where
  emptied : h n ≡ none → (b : ℕ) → n ≤ b → h b ≡ none
  emptied here b le = elim (Bool-cases (n == b)) [
    | inl same ↦ ap h (sym ((==_iff n b).0 same)) ∙ here
    | inr other ↦ ground (arith, le, other, ==_iff n b, bound b)
  ]

  swept : (b : ℕ) → n ≤ b → update h n none b ≡ none
  swept b le = elim (Bool-cases (n == b)) [
    | inl same ↦ rw same refl
    | inr other ↦ ground (arith, le, other, ==_iff n b, bound b)
  ]

module _ (P : Platform) where
  -- All objects are freed, and the handles of those below an address released.
  abbrev Drained : ℕ → World P.State → Type 1
  Drained n w =
      (w' : World P.State) × Steps P [] w [] w'
      × ((b : ℕ) → w'.heap b ≡ none)
      × (w'.calls ≡ released_below w.heap n ++ w.calls)

  abbrev Bounded : ℕ → World P.State → Type 0
  Bounded n w = (b : ℕ) → n ≤ b → w.heap b ≡ none

  drain_next :
      (n : ℕ) (w : World P.State) (o : Option Holder)
      → w.heap n ≡ o
      → Bounded (suc n) w
      → ((u : World P.State) → Bounded n u → Drained n u)
      → Drained (suc n) w
  drain_next n w none here bound drain =
      let (w', steps, empty, calls) = drain w (emptied w.heap n bound here) in
      (
        w',
        steps,
        empty,
        rw (calls, here) (ap (λ l. l ++ w.calls) (sym (append-nil (released_below w.heap n)))),
      )
  drain_next n w (some x) here bound drain =
      let (_, c, h, _, _) = sweep_lem P n x w here in
      let (w', steps, empty, calls) = drain (sweep P n w).1 (rw h (swept w.heap n bound)) in
      (
        w',
        onward (collect n x here no_root-Live) steps,
        empty,
        rw (calls, c, h, here, released_below-update w.heap n n (omega arith))
            (sym (append_assoc (released_below w.heap n) (released x) w.calls)),
      )

  drain : (n : ℕ) (w : World P.State) → Bounded n w → Drained n w
  drain zero w bound = (w, stay, λ b. bound b (omega arith), refl)
  drain (suc n) w bound = drain_next n w (w.heap n) refl bound (drain n)

  -- From every state that a process reaches, steps lead to one with no object left, in which each
  -- session, key and scp that was held has been released, once, and nothing else has been called:
  -- the process drops its references, and the collector frees the objects, the newest first.
  pub Reach-released :
      {s : P.State} {roots : List ℕ} {w : World P.State}
      → Reach P s roots w
      → (w' : World P.State) × Steps P roots w [] w'
        × ((b : ℕ) → w'.heap b ≡ none)
        × (w'.calls ≡ released_below w.heap w.next ++ w.calls)
  Reach-released {roots} {w} r =
      let (D, rooted, closed) = Reach-Invariant P r in
      let (w', steps, empty, calls) = drain w.next w closed.fresh in
      (w', onward (forget [] (λ a none_kept. absurd none_kept)) steps, empty, calls)
