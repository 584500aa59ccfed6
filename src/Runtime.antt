-- ===== src/Runtime.antt =====
-- The state that the C functions work on, and how they run: Ruby objects with their holders,
-- buffers of C, libssh, and the calls made so far. A function may raise, and what it wrote before
-- stays written.
pub mod Api
pub mod Objects
pub mod Keeps
pub mod Trace
use libssh_ruby.Base.{ℕ, zero, suc, ◌+◌, List, ◌∷◌, Option, none, some, ◌==◌, if◌then◌else◌}
use libssh_ruby.Value.{Value, Exception, Result, ok, raised, fault}
use libssh_ruby.Libssh.{Handle, Call, Answer, Platform}

-- The structures behind the objects of the four classes. A channel and an scp keep the value of
-- their session.
pub data Holder : Type 0 where
  session key : Handle → Holder
  channel scp : Handle → Value → Holder

abbrev pub Heap : Type 0
Heap = ℕ → Option Holder

-- `heap` holds the objects by address, those from `next` on being free; `buffers` counts the
-- buffers of `ALLOC_N` that are not yet freed; `calls` has the last call first.
pub record World (S : Type 0) : Type 0 where
  pub heap : Heap
  pub next : ℕ
  pub buffers : ℕ
  pub ssh : S
  pub calls : List Call

abbrev pub Action : Type 0 → Type 0 → Type 0
Action S A = World S → Result A × World S

abbrev pub update : Heap → ℕ → Option Holder → Heap
update f a h b = if a == b then h else f b

module _ {S A : Type 0} where
  pub pure : A → Action S A
  pure a w = (ok a, w)

  pub raise : Exception → Action S A
  raise e w = (raised e, w)

  pub lift : Result A → Action S A
  lift r w = (r, w)

module _ {S A B : Type 0} where
  abbrev pub continue : Result A → (A → Action S B) → Action S B
  continue (ok a) f w = f a w
  continue (raised e) f w = (raised e, w)
  continue fault f w = (fault, w)

  infixl 10 ◌>>=◌ ◌>>◌
  -- Opening this opens `pure`, `raise` and `lift` too.
  unfoldable pub ◌>>=◌ : Action S A → (A → Action S B) → Action S B
  unfolding pure raise lift
  ◌>>=◌ m f w = let (r, w') = m w in continue r f w'

  abbrev pub ◌>>◌ : Action S A → Action S B → Action S B
  m >> n = m >>= λ _. n

-- A call of libssh is answered, and recorded.
unfoldable pub libssh : (P : Platform) (c : Call) → Action P.State (Answer c)
libssh P c w = let (r, s) = P.answer c w.ssh in (ok r, record w { ssh = s; calls = c ∷ w.calls })
