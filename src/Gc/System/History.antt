-- ===== src/Gc/System/History.antt =====
-- The steps that a process has made, and what steps keep.
use mathlib.Core.Path.{subst}
use libssh_ruby.Base.{ℕ, suc, List, [], ◌∷◌, some, arith}
use libssh_ruby.Value.{Value}
use libssh_ruby.Libssh.{Platform}
use libssh_ruby.Runtime.{World, update}
use libssh_ruby.Runtime.Keeps.{Keeps}
use libssh_ruby.Methods.{Method}
use libssh_ruby.Gc.Closed.{Linked-allocated, Closed-alloc}
use libssh_ruby.Gc.Live.{Live, Live-in}
use libssh_ruby.Gc.Methods.{IsKept}
use libssh_ruby.Gc.System.{
  Class, alloc_of, Step, alloc, send, new_key, select, forget, collect, initial, Reach, start, next,
}
use libssh_ruby.Gc.System.Invariant.{fresh_holder}

-- What a step does: with the call, its arguments and its object.
pub data Event (S : Type 0) : Type 0 where
  allocated : Class → Event S
  called : ℕ → Method S → Event S
  key_made : ℕ → Event S
  selected : (read write except timeout : Value) → Event S
  dropped_to : List ℕ → Event S
  freed : ℕ → Event S

abbrev pub event :
    {P : Platform} {roots kept : List ℕ} {w w' : World P.State}
    → Step P roots w kept w'
    → Event P.State
event (alloc k) = allocated k
event (send a m root held) = called a m
event (new_key a root met) = key_made a
event (select r q e t) = selected r q e t
event (forget kept fewer) = dropped_to kept
event (collect a x here dead) = freed a

-- The events of a process, the newest first, with what it refers to and its state.
pub data History (P : Platform) (s : P.State)
    : List (Event P.State) → List ℕ → World P.State → Type 1 where
  beginning : History P s [] [] (initial s)
  later :
      {es : List (Event P.State)} {roots kept : List ℕ} {w w' : World P.State}
      → History P s es roots w
      → (st : Step P roots w kept w') → History P s (event st ∷ es) kept w'

pub History-Reach :
    {P : Platform} {s : P.State} {es : List (Event P.State)} {roots : List ℕ} {w : World P.State}
    → History P s es roots w
    → Reach P s roots w
History-Reach beginning = start
History-Reach (later h st) = next (History-Reach h) st

-- An object that is made and that nothing refers to yet is not live.
pub made_dead :
    (P : Platform) (k : Class) (roots : List ℕ) (w : World P.State)
    → IsKept roots w
    → ¬ Live roots (alloc_of P k w).1.heap w.next
made_dead P k roots w kept l =
    let (x, made, plain) = fresh_holder P k w in
    let D = Live roots w.heap in
    let closed = Closed-alloc D w.heap w.next kept x in
    let before =
      Live-in D (update w.heap w.next (some x)) (suc w.next) closed roots (λ a r. Live.root r)
        (subst (λ u. Live roots u.heap w.next) made l) in
    Linked-allocated D w.heap (w.heap w.next) (kept.linked w.next before)
      (kept.fresh w.next (omega arith))
