-- ===== src/Program.antt =====
-- A Ruby program that has loaded the extension: it calls `new`, methods and `Channel.select` by
-- their names on what it refers to, drops references, and the collector runs.
pub mod Simulation
pub mod Sound
use libssh_ruby.Base.{ℕ, ◌≡◌, true, List, [], ◌∷◌, none, some}
use libssh_ruby.Value.{Value, Values, array, empty, entry, object}
use libssh_ruby.Libssh.{Platform}
use libssh_ruby.Runtime.{Holder, World, Action}
use libssh_ruby.Methods.{SessionMethod, Method, of_session}
use libssh_ruby.Gc.{sweep}
use libssh_ruby.Gc.Closed.{is_session}
use libssh_ruby.Gc.Live.{In, Live}
use libssh_ruby.Gc.Methods.{Referred}
use libssh_ruby.Gc.Keeper.{MethodFit}
use libssh_ruby.Gc.System.{Class, Allowed, initial}
use libssh_ruby.Init.{Header, channel_class}
use libssh_ruby.Init.Dispatch.{documented_call, own}
use libssh_ruby.Init.New.{new, class_owner}
use libssh_ruby.Sound.Opened.{AllOpened, AnyValue}
use libssh_ruby.Sound.Reachable.{Harmless}

-- `LibSSH::X.new(...)`, a call of a method on the object at an address, and
-- `LibSSH::Channel.select`.
pub data Command (S : Type 0) : Type 0 where
  make : Class → List Value → Command S
  send : ℕ → Method S → Command S
  select : (read write except timeout : Value) → Command S

-- The objects among the arguments are referred to.
abbrev pub AllReferred : List ℕ → List Value → Type 0
AllReferred roots [] = Unit
AllReferred roots (v ∷ vs) = Referred roots v × AllReferred roots vs

-- The objects in an array are referred to.
abbrev pub EntriesReferred : List ℕ → Values → Type 0
EntriesReferred roots empty = Unit
EntriesReferred roots (entry v vs) = Referred roots v × EntriesReferred roots vs

abbrev pub ArrayReferred : List ℕ → Value → Type 0
ArrayReferred roots (array vs) = EntriesReferred roots vs
ArrayReferred roots v = Unit

-- What a program may do: the object and the arguments are referred to, the method is not `sha1`,
-- and a block returns or raises, leaves what the program's references lead to allocated, and leaves
-- no scp with a session NULL.
abbrev pub Permitted : (P : Platform) → List ℕ → Command P.State → Type 0
Permitted P roots (make k argv) = AllReferred roots argv
Permitted P roots (send a m) =
    In roots a × Allowed P roots m × Harmless P roots a m × MethodFit P AllOpened AnyValue m
Permitted P roots (select read write except timeout) =
    ArrayReferred roots read × ArrayReferred roots write × ArrayReferred roots except

module _ (P : Platform) (H : Header) where
  unfoldable pub perform : Command P.State → Action P.State Value
  perform (make k argv) = new P H (class_owner k) argv
  perform (send a m) = documented_call P H m none (object a)
  perform (select read write except timeout) =
      own P H channel_class "select" (read ∷ write ∷ except ∷ timeout ∷ [])

  -- The states of a program, with what it refers to. An exception is rescued; an object whose
  -- `initialize` raised can be dropped by `forget`.
  pub data Run (s : P.State) : List ℕ → World P.State → Type 1 where
    start : Run s [] (initial s)
    made :
        {roots : List ℕ} {w : World P.State}
        → Run s roots w
        → (k : Class) (argv : List Value) → Permitted P roots (make k argv)
        → Run s (w.next ∷ roots) (perform (make k argv) w).1
    sent :
        {roots : List ℕ} {w : World P.State}
        → Run s roots w
        → (a : ℕ) (m : Method P.State) → Permitted P roots (send a m)
        → Run s roots (perform (send a m) w).1
    selected :
        {roots : List ℕ} {w : World P.State}
        → Run s roots w
        → (read write except timeout : Value) → Permitted P roots (select read write except timeout)
        → Run s roots (perform (select read write except timeout) w).1
    new_key :
        {roots : List ℕ} {w : World P.State}
        → Run s roots w
        → (a : ℕ) → In roots a
        → is_session (w.heap a) ≡ true
        → Run s (w.next ∷ roots) (perform (send a (of_session SessionMethod.get_publickey)) w).1
    forget :
        {roots : List ℕ} {w : World P.State}
        → Run s roots w
        → (kept : List ℕ) → ((a : ℕ) → In kept a → In roots a)
        → Run s kept w
    collect :
        {roots : List ℕ} {w : World P.State}
        → Run s roots w
        → (a : ℕ) (x : Holder) → w.heap a ≡ some x
        → ¬ Live roots w.heap a
        → Run s roots (sweep P a w).1
