-- ===== src/Gc/Generations.antt =====
-- Ruby's collector works in generations: a minor collection frees young objects only, and takes the
-- old ones for live. It looks into an old object only if that is remembered, or if its type does
-- not promise, by `RUBY_TYPED_WB_PROTECTED`, that each write of a reference is announced
-- (`RB_OBJ_WRITE`). The functions of the extension announce none.
pub mod Barrier
use libssh_ruby.Base.{ℕ, ◌≡◌, Bool, true, false, ◌||◌, List, Option, none, some}
use libssh_ruby.Value.{object}
use libssh_ruby.Runtime.{Holder, Heap}
use libssh_ruby.Gc.{marks}
use libssh_ruby.Gc.Live.{In}
use libssh_ruby.Gc.Types.{type_of, is_protected}

-- Which objects are old, and which of these are remembered.
pub record Generations : Type 0 where
  pub old : ℕ → Bool
  pub remembered : ℕ → Bool

abbrev not : Bool → Bool
not true = false
not false = true

abbrev unprotected : Option Holder → Bool
unprotected none = false
unprotected (some x) = not (is_protected (type_of x).flags)

-- Whether a minor collection looks into an object, by its holder and its address.
abbrev pub scanned : Generations → Option Holder → ℕ → Bool
scanned g x a = not (g.old a) || (g.remembered a || unprotected x)

-- What the mark phase of a minor collection reaches.
pub data MinorLive (roots : List ℕ) (g : Generations) (h : Heap) : ℕ → Type 0 where
  root : {a : ℕ} → In roots a → MinorLive roots g h a
  old_root : {a : ℕ} → g.old a ≡ true → scanned g (h a) a ≡ true → MinorLive roots g h a
  marked :
      {a b : ℕ}
      → MinorLive roots g h a
      → scanned g (h a) a ≡ true
      → marks (h a) ≡ some (object b)
      → MinorLive roots g h b

-- A minor collection can free an object that is young and that it does not reach.
abbrev pub Freed : List ℕ → Generations → Heap → ℕ → Type 0
Freed roots g h a = (g.old a ≡ false) × ¬ MinorLive roots g h a

-- What the write barrier is to keep: an old object that is not looked into marks none but old ones.
abbrev pub Remembers : Generations → Heap → Type 0
Remembers g h =
    (a b : ℕ) → scanned g (h a) a ≡ false → marks (h a) ≡ some (object b) → g.old b ≡ true
