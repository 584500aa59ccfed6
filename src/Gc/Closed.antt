-- ===== src/Gc/Closed.antt =====
-- Sets of objects that are allocated and closed under marking, and what keeps them so.
use libssh_ruby.Base.{
  ℕ, suc, ◌≤◌, ◌≡◌, ◌≢◌, sym, ap, ◌∙◌, Bool, true, false, ◌==◌, ==_iff, Bool-cases, inl, inr,
  Option, none, some, arith,
}
use libssh_ruby.Value.{Value, object}
use libssh_ruby.Runtime.{Holder, session, Heap, update}
use libssh_ruby.Gc.{marks}

abbrev pub is_session : Option Holder → Bool
is_session (some (session s)) = true
is_session _ = false

-- A value that is a session in the set.
abbrev pub SessionIn : (ℕ → Type 0) → Heap → Value → Type 0
SessionIn D h (object b) = D b × (is_session (h b) ≡ true)
SessionIn D h _ = ⊥

abbrev pub Marked : (ℕ → Type 0) → Heap → Option Value → Type 0
Marked D h none = Unit
Marked D h (some v) = SessionIn D h v

-- An object is allocated, and what it marks is a session of the set.
abbrev pub Linked : (ℕ → Type 0) → Heap → Option Holder → Type 0
Linked D h none = ⊥
Linked D h (some x) = Marked D h (marks (some x))

pub record Closed (D : ℕ → Type 0) (h : Heap) (n : ℕ) : Type 0 where
  pub fresh : (b : ℕ) → n ≤ b → h b ≡ none
  pub linked : (a : ℕ) → D a → Linked D h (h a)

abbrev pub Grows : Heap → Heap → Type 0
Grows h k = (e : ℕ) → is_session (h e) ≡ true → is_session (k e) ≡ true

SessionIn-Grows :
    (D : ℕ → Type 0) (h k : Heap) (v : Value) → Grows h k → SessionIn D h v → SessionIn D k v
SessionIn-Grows D h k (object b) g (d, s) = (d, g b s)
SessionIn-Grows D h k _ g m = absurd m

Marked-Grows :
    (D : ℕ → Type 0) (h k : Heap) (m : Option Value) → Grows h k → Marked D h m → Marked D k m
Marked-Grows D h k none g l = tt
Marked-Grows D h k (some v) g l = SessionIn-Grows D h k v g l

Linked-Grows :
    (D : ℕ → Type 0) (h k : Heap) (x : Option Holder) → Grows h k → Linked D h x → Linked D k x
Linked-Grows D h k none g l = l
Linked-Grows D h k (some x) g l = Marked-Grows D h k (marks (some x)) g l

pub Linked-allocated : (D : ℕ → Type 0) (h : Heap) (x : Option Holder) → Linked D h x → x ≢ none
Linked-allocated D h none l = absurd l
Linked-allocated D h (some x) l = ground arith

module _ (D : ℕ → Type 0) (h : Heap) (n : ℕ) (closed : Closed D h n) where
  -- A holder that is written over keeps the set closed.
  pub Closed-store :
      (a : ℕ) (x : Holder)
      → h a ≢ none
      → Grows h (update h a (some x))
      → Linked D h (some x)
      → Closed D (update h a (some x)) n
  Closed-store a x old g l = record {
    fresh = λ b le. ground (arith, closed.fresh b le);
    linked = λ b d. elim (Bool-cases (a == b)) [
      | inl same ↦ rw same (Linked-Grows D h _ (some x) g l)
      | inr other ↦ rw other (Linked-Grows D h _ (h b) g (closed.linked b d))
    ];
  }

  not_next : (a : ℕ) → D a → (n == a) ≡ false
  not_next a d = elim (Bool-cases (n == a)) [
    | inl same ↦ absurd (
        Linked-allocated D h (h a) (closed.linked a d)
          (ap h (sym ((==_iff n a).0 same)) ∙ closed.fresh n (omega arith)))
    | inr other ↦ other
  ]

  alloc-Grows : (x : Holder) → Grows h (update h n (some x))
  alloc-Grows x e s = ground (arith, closed.fresh n (omega arith))

  -- A new object is outside of the set.
  pub Closed-alloc : (x : Holder) → Closed D (update h n (some x)) (suc n)
  Closed-alloc x = record {
    fresh = λ b le. ground (arith, closed.fresh b (omega arith));
    linked =
        λ b d. rw (not_next b d) (Linked-Grows D h _ (h b) (alloc-Grows x) (closed.linked b d));
  }

  SessionIn-swept : (a : ℕ) (v : Value) → ¬ D a → SessionIn D h v → SessionIn D (update h a none) v
  SessionIn-swept a (object b) out (d, s) = elim (Bool-cases (a == b)) [
    | inl same ↦ absurd (out (rw ((==_iff a b).0 same) d))
    | inr other ↦ (d, rw other s)
  ]
  SessionIn-swept a _ out m = absurd m

  Marked-swept : (a : ℕ) (m : Option Value) → ¬ D a → Marked D h m → Marked D (update h a none) m
  Marked-swept a none out l = tt
  Marked-swept a (some v) out l = SessionIn-swept a v out l

  Linked-swept : (a : ℕ) (x : Option Holder) → ¬ D a → Linked D h x → Linked D (update h a none) x
  Linked-swept a none out l = l
  Linked-swept a (some x) out l = Marked-swept a (marks (some x)) out l

  -- An object outside of the set can be freed.
  pub Closed-free : (a : ℕ) → ¬ D a → Closed D (update h a none) n
  Closed-free a out = record {
    fresh = λ b le. ground (arith, closed.fresh b le);
    linked = λ b d. elim (Bool-cases (a == b)) [
      | inl same ↦ absurd (out (rw ((==_iff a b).0 same) d))
      | inr other ↦ rw other (Linked-swept a (h b) out (closed.linked b d))
    ];
  }
