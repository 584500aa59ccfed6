-- ===== src/Gc/System.antt =====
-- A Ruby process that uses the four classes, as a system of steps: objects are made, methods are
-- called, references are dropped, and the collector frees objects, in any order.
pub mod History
pub mod Invariant
pub mod Order
pub mod Release
use libssh_ruby.Base.{ℕ, ◌≡◌, true, List, [], ◌∷◌, none, some}
use libssh_ruby.Value.{Value, object}
use libssh_ruby.Libssh.{Platform}
use libssh_ruby.Runtime.{Holder, World, Action}
use libssh_ruby.Key.{key_alloc}
use libssh_ruby.Session.{session_alloc}
use libssh_ruby.Session.Connection.{m_get_publickey}
use libssh_ruby.Channel.{channel_alloc}
use libssh_ruby.Channel.Select.{s_select}
use libssh_ruby.Scp.{scp_alloc}
use libssh_ruby.Methods.{Method, run}
use libssh_ruby.Gc.{sweep}
use libssh_ruby.Gc.Closed.{is_session}
use libssh_ruby.Gc.Live.{In, Live}
use libssh_ruby.Gc.Methods.{MethodHeld}

pub data Class : Type 0 where
  session_class key_class channel_class scp_class : Class

unfoldable pub alloc_of : (P : Platform) → Class → Action P.State Value
unfolding session_alloc key_alloc channel_alloc scp_alloc
alloc_of P session_class = session_alloc P
alloc_of P key_class = key_alloc P
alloc_of P channel_class = channel_alloc P
alloc_of P scp_class = scp_alloc P

-- The objects in the arguments of a call are roots, and its block, if there is one, leaves what
-- marking reaches from the roots allocated, if it was before.
abbrev pub Allowed : (P : Platform) → List ℕ → Method P.State → Type 0
Allowed P roots m = MethodHeld P roots m

-- The roots are the objects that the program refers to. `get_publickey` is a call that makes an
-- object; `select` is the call of `Channel.select`. An object can be freed once no root leads to it.
pub data Step (P : Platform) (roots : List ℕ) (w : World P.State)
    : List ℕ → World P.State → Type 1 where
  alloc : (k : Class) → Step P roots w (w.next ∷ roots) (alloc_of P k w).1
  send :
      (a : ℕ) (m : Method P.State)
      → In roots a
      → Allowed P roots m
      → Step P roots w roots (run P m (object a) w).1
  new_key :
      (a : ℕ)
      → In roots a
      → is_session (w.heap a) ≡ true
      → Step P roots w (w.next ∷ roots) (m_get_publickey P (object a) w).1
  select :
      (read write except timeout : Value)
      → Step P roots w roots (s_select P read write except timeout w).1
  forget : (kept : List ℕ) → ((a : ℕ) → In kept a → In roots a) → Step P roots w kept w
  collect :
      (a : ℕ) (x : Holder)
      → w.heap a ≡ some x
      → ¬ Live roots w.heap a
      → Step P roots w roots (sweep P a w).1

-- No object is there yet.
abbrev pub initial : {S : Type 0} → S → World S
initial s = record { heap = λ a. none; next = 0; buffers = 0; ssh = s; calls = [] }

pub data Reach (P : Platform) (s : P.State) : List ℕ → World P.State → Type 1 where
  start : Reach P s [] (initial s)
  next :
      {roots kept : List ℕ} {w w' : World P.State}
      → Reach P s roots w
      → Step P roots w kept w'
      → Reach P s kept w'

-- Any number of steps.
pub data Steps (P : Platform) : List ℕ → World P.State → List ℕ → World P.State → Type 1 where
  stay : {roots : List ℕ} {w : World P.State} → Steps P roots w roots w
  onward :
      {roots mid kept : List ℕ} {w w' w'' : World P.State}
      → Step P roots w mid w'
      → Steps P mid w' kept w''
      → Steps P roots w kept w''
