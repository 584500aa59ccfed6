-- ===== src/Program/Simulation.antt =====
-- What a program does is a history of the system of steps.
use mathlib.Core.Path.{subst}
use libssh_ruby.Base.{ℕ, ◌≡◌, refl, sym, ap, ◌∙◌, inl, inr, List, [], ◌∷◌, Option, none, some}
use libssh_ruby.Value.{Value, object, nil, Result, ok, raised, fault}
use libssh_ruby.Libssh.{Platform}
use libssh_ruby.Runtime.{World, ◌>>=◌}
use libssh_ruby.Methods.{SessionMethod, Method, of_session, run, run_session}
use libssh_ruby.Channel.Select.{s_select}
use libssh_ruby.Session.Connection.{m_get_publickey}
use libssh_ruby.Gc.Methods.{Referred}
use libssh_ruby.Gc.System.History.{
  Event, allocated, called, key_made, selected, dropped_to, freed, History, beginning, later,
  History-Reach,
}
use libssh_ruby.Gc.System.{Class, alloc_of, Allowed, Step, alloc, Reach, next, start}
use libssh_ruby.Gc.System
use libssh_ruby.Gc.Keeper.{MethodFit}
use libssh_ruby.Sound.Opened.{AllOpened, AnyValue}
use libssh_ruby.Sound.Reachable.{Harmless}
use libssh_ruby.Init.{Header, call_resolved}
use libssh_ruby.Init.Dispatch.{call-run}
use libssh_ruby.Init.New.{instance_of, constructor_call, new_lem}
use libssh_ruby.Program.{make, send, AllReferred, perform, Run, select}

pub instance_state :
    {S : Type 0} (a : ℕ) (met : Result Value × World S) → (instance_of a met).1 ≡ met.1
instance_state a (ok v, w) = refl
instance_state a (raised e, w) = refl
instance_state a (fault, w) = refl

-- The call of `initialize` that `new` makes is allowed, and it runs no block.
module _ (P : Platform) (roots : List ℕ) (n : ℕ) where
  pub record Constructed (m : Method P.State) : Type 0 where
    pub allowed : Allowed P (n ∷ roots) m
    pub harmless : Harmless P (n ∷ roots) n m
    pub fit : MethodFit P AllOpened AnyValue m

  abbrev pub Constructible : Option (Method P.State) → Type 0
  Constructible none = Unit
  Constructible (some m) = Constructed m

  Referred-more : (v : Value) → Referred roots v → Referred (n ∷ roots) v
  Referred-more (object b) r = inr r
  Referred-more v r = tt

  pub constructed :
      (k : Class) (argv : List Value)
      → AllReferred roots argv
      → Constructible (constructor_call k argv)
  constructed Class.session_class [] given = record { allowed = tt; harmless = tt; fit = tt }
  constructed Class.session_class (v ∷ vs) given = tt
  constructed Class.key_class [] given = record { allowed = tt; harmless = tt; fit = tt }
  constructed Class.key_class (v ∷ vs) given = tt
  constructed Class.channel_class [] given = tt
  constructed Class.channel_class (v ∷ []) given = record {
    allowed = Referred-more v given.0;
    harmless = tt;
    fit = tt;
  }
  constructed Class.channel_class (u ∷ v ∷ vs) given = tt
  constructed Class.scp_class [] given = tt
  constructed Class.scp_class (u ∷ []) given = tt
  constructed Class.scp_class (u ∷ v ∷ []) given = tt
  constructed Class.scp_class (u ∷ v ∷ x ∷ []) given = record {
    allowed = Referred-more u given.0;
    harmless = tt;
    fit = tt;
  }
  constructed Class.scp_class (u ∷ v ∷ x ∷ y ∷ ys) given = tt

-- The events of `new`: the object is allocated, and `initialize` runs if the number of arguments is
-- right.
abbrev pub made_events :
    {S : Type 0} → Class → ℕ → Option (Method S) → List (Event S) → List (Event S)
made_events k n none es = allocated k ∷ es
made_events k n (some m) es = called n m ∷ allocated k ∷ es

made_History :
    (P : Platform) (s : P.State) (es : List (Event P.State)) (roots : List ℕ) (w : World P.State)
    → History P s es roots w
    → (k : Class) (o : Option (Method P.State)) → Constructible P roots w.next o
    → History P s
        (made_events k w.next o es)
        (w.next ∷ roots)
        (call_resolved P o (object w.next) (alloc_of P k w).1).1
unfolding ◌>>=◌
made_History P s es roots w h k none c = later h (alloc k)
made_History P s es roots w h k (some m) c =
    later (later h (alloc k)) (System.send w.next m (inl refl) c.allowed)

module _ (P : Platform) (H : Header) where
  pub perform-make :
      (k : Class) (argv : List Value) (w : World P.State)
      → perform P H (make k argv) w
        ≡ instance_of w.next
            (call_resolved P (constructor_call k argv) (object w.next) (alloc_of P k w).1)
  unfolding perform
  perform-make k argv w = new_lem P H k argv w

  pub perform-send :
      (a : ℕ) (m : Method P.State) (w : World P.State)
      → perform P H (send a m) w ≡ run P m (object a) w
  unfolding perform
  perform-send a m w = ap (λ f. f w) (call-run P H m none (object a) [] nil nil nil nil).0

  pub perform-select :
      (read write except timeout : Value) (w : World P.State)
      → perform P H (select read write except timeout) w ≡ s_select P read write except timeout w
  unfolding perform
  perform-select read write except timeout w =
      ap (λ f. f w)
        (call-run P H (of_session SessionMethod.connect) none nil [] read write except timeout).2

  perform-publickey :
      (a : ℕ) (w : World P.State)
      → perform P H (send a (of_session SessionMethod.get_publickey)) w
        ≡ m_get_publickey P (object a) w
  unfolding run run_session
  perform-publickey a w = perform-send a (of_session SessionMethod.get_publickey) w

  -- What a program has done: each command by the method that its name and its arguments stand for.
  abbrev pub events :
      {s : P.State} {roots : List ℕ} {w : World P.State} → Run P H s roots w → List (Event P.State)
  events Run.start = []
  events (Run.made {w = w} r k argv given) =
      made_events k w.next (constructor_call k argv) (events r)
  events (Run.sent r a m given) = called a m ∷ events r
  events (Run.selected r read write except timeout given) =
      selected read write except timeout ∷ events r
  events (Run.new_key r a referred met) = key_made a ∷ events r
  events (Run.forget r kept fewer) = dropped_to kept ∷ events r
  events (Run.collect r a x here dead) = freed a ∷ events r

  pub Run-History :
      {s : P.State} {roots : List ℕ} {w : World P.State}
      → (r : Run P H s roots w) → History P s (events r) roots w
  Run-History Run.start = beginning
  Run-History {s} (Run.made {roots = roots} {w = w} r k argv given) =
      subst
        (History P s (made_events k w.next (constructor_call k argv) (events r)) (w.next ∷ roots))
        (sym (ap (λ x. x.1) (perform-make k argv w) ∙ instance_state w.next _))
        (made_History P s (events r) roots w (Run-History r) k (constructor_call k argv)
          (constructed P roots w.next k argv given))
  Run-History {s} (Run.sent {roots = roots} {w = w} r a m (referred, allowed, harmless, fit)) =
      subst (History P s (called a m ∷ events r) roots) (sym (ap (λ x. x.1) (perform-send a m w)))
        (later (Run-History r) (System.send a m referred allowed))
  Run-History {s} (Run.selected {roots = roots} {w = w} r read write except timeout given) =
      subst (History P s (selected read write except timeout ∷ events r) roots)
        (sym (ap (λ x. x.1) (perform-select read write except timeout w)))
        (later (Run-History r) (System.select read write except timeout))
  Run-History {s} (Run.new_key {roots = roots} {w = w} r a referred met) =
      subst (History P s (key_made a ∷ events r) (w.next ∷ roots))
        (sym (ap (λ x. x.1) (perform-publickey a w)))
        (later (Run-History r) (System.new_key a referred met))
  Run-History (Run.forget r kept fewer) = later (Run-History r) (System.forget kept fewer)
  Run-History (Run.collect r a x here dead) = later (Run-History r) (System.collect a x here dead)

  pub Run-Reach :
      {s : P.State} {roots : List ℕ} {w : World P.State} → Run P H s roots w → Reach P s roots w
  Run-Reach r = History-Reach (Run-History r)
