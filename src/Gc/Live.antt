-- ===== src/Gc/Live.antt =====
-- The objects that the mark phase reaches from the roots.
use mathlib.Core.Path.{subst}
use libssh_ruby.Base.{
  ℕ, ◌≡◌, refl, ◌⊎◌, inl, inr, true, List, [], ◌∷◌, Option, none, some, ◌==◌, Bool-cases, arith,
}
use libssh_ruby.Value.{Value, object}
use libssh_ruby.Runtime.{Holder, Heap, update}
use libssh_ruby.Gc.{marks}
use libssh_ruby.Gc.Closed.{is_session, SessionIn, Marked, Linked, Closed}

abbrev pub In : List ℕ → ℕ → Type 0
In [] a = ⊥
In (r ∷ rs) a = (a ≡ r) ⊎ In rs a

pub data Live (roots : List ℕ) (h : Heap) : ℕ → Type 0 where
  root : {a : ℕ} → In roots a → Live roots h a
  marked : {a b : ℕ} → Live roots h a → marks (h a) ≡ some (object b) → Live roots h b

module _ (D : ℕ → Type 0) (h : Heap) where
  Linked-Marked : (x : Option Holder) → Linked D h x → Marked D h (marks x)
  Linked-Marked none l = absurd l
  Linked-Marked (some y) l = l

  pub Linked-object :
      (x : Option Holder) (b : ℕ)
      → Linked D h x
      → marks x ≡ some (object b)
      → D b × (is_session (h b) ≡ true)
  Linked-object x b l e = subst (Marked D h) e (Linked-Marked x l)

  Marked-value :
      (v : Value) → SessionIn D h v → (b : ℕ) × (v ≡ object b) × D b × (is_session (h b) ≡ true)
  Marked-value (object b) (d, s) = (b, refl, d, s)
  Marked-value _ m = absurd m

  -- What a linked object marks is a session of the set.
  pub Linked-value :
      (x : Option Holder) (v : Value)
      → Linked D h x
      → marks x ≡ some v
      → (b : ℕ) × (v ≡ object b) × D b × (is_session (h b) ≡ true)
  Linked-value x v l e = Marked-value v (subst (Marked D h) e (Linked-Marked x l))

module _ (D : ℕ → Type 0) (E : ℕ → Type 0) (h : Heap) where
  Marked-in :
      (m : Option Value) → ((b : ℕ) → m ≡ some (object b) → E b) → Marked D h m → Marked E h m
  Marked-in none e k = tt
  Marked-in (some (object b)) e k = (e b refl, k.1)
  Marked-in (some v) e k = absurd k

  pub Linked-in :
      (x : Option Holder)
      → ((b : ℕ) → marks x ≡ some (object b) → E b)
      → Linked D h x
      → Linked E h x
  Linked-in none e l = l
  Linked-in (some y) e l = Marked-in (marks (some y)) e l

module _ (D : ℕ → Type 0) (h : Heap) (n : ℕ) (closed : Closed D h n) (roots : List ℕ)
    (rooted : (a : ℕ) → In roots a → D a) where
  pub Live-in : {a : ℕ} → Live roots h a → D a
  Live-in (root r) = rooted _ r
  Live-in (marked {a = x} {b = b} l e) =
      (Linked-object D h (h x) b (closed.linked x (Live-in l)) e).0

  -- The live objects are closed under marking too.
  pub Closed-Live : Closed (Live roots h) h n
  Closed-Live = record {
    fresh = closed.fresh;
    linked =
        λ a l. Linked-in D (Live roots h) h (h a) (λ b e. marked l e) (closed.linked a (Live-in l));
  }

-- What is live after an object is freed was live before.
marks_swept :
    (h : Heap) (a b : ℕ) (v : Value) → marks (update h a none b) ≡ some v → marks (h b) ≡ some v
marks_swept h a b v e = elim (Bool-cases (a == b)) [
  | inl same ↦ ground arith
  | inr other ↦ ground arith
]

pub Live-swept :
    (roots : List ℕ) (h : Heap) (a : ℕ) {b : ℕ} → Live roots (update h a none) b → Live roots h b
Live-swept roots h a (root r) = root r
Live-swept roots h a (marked {a = x} {b = b} l e) =
    marked (Live-swept roots h a l) (marks_swept h a x (object b) e)
