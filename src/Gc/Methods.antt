-- ===== src/Gc/Methods.antt =====
-- Every method of the four classes keeps what marking reaches from the roots allocated, where the
-- session that `initialize` is given is a root.
use libssh_ruby.Base.{ℕ, List}
use libssh_ruby.Value.{Value, object}
use libssh_ruby.Libssh.{Platform}
use libssh_ruby.Runtime.{World, Action}
use libssh_ruby.Runtime.Keeps.{Keeps}
use libssh_ruby.Methods.{ChannelMethod, ScpMethod, Method, run}
use libssh_ruby.Gc.Closed.{Closed}
use libssh_ruby.Gc.Live.{In, Live, Closed-Live}
use libssh_ruby.Gc.Keeper.{Keeper, ChannelFit, ScpFit, MethodFit, run-keeper}
use libssh_ruby.Gc.Initialize.{
  IsClosed, Held, session_initialize-Keeps, key_initialize-Keeps, channel_initialize-Keeps,
  scp_initialize-Keeps, get_publickey-Keeps,
}

-- What marking reaches from the roots is allocated, and all that it leads to are sessions.
abbrev pub IsKept : {S : Type 0} → List ℕ → World S → Type 0
IsKept roots w = Closed (Live roots w.heap) w.heap w.next

-- A value is no object, or a root.
abbrev pub Referred : List ℕ → Value → Type 0
Referred roots (object b) = In roots b
Referred roots v = Unit

module _ (P : Platform) (roots : List ℕ) where
  -- An action that keeps every closed set with the roots in it.
  IsKept-by :
      (m : Action P.State Value)
      → ((D : ℕ → Type 0) → ((a : ℕ) → In roots a → D a) → Keeps (IsClosed P D) m)
      → Keeps (IsKept roots) m
  IsKept-by m keeps = record {
    at = λ w live.
        let D = Live roots w.heap in
        Closed-Live D (m w).1.heap (m w).1.next ((keeps D (λ a r. Live.root r)).at w live) roots
          (λ a r. Live.root r);
  }

  Referred-Held :
      (v : Value) → Referred roots v → (D : ℕ → Type 0) → ((a : ℕ) → In roots a → D a) → Held P D v
  Referred-Held (object b) r D rooted = rooted b r
  Referred-Held v r D rooted = tt

  -- What a call may be given: sessions that are roots, and blocks that keep what the roots lead to.
  abbrev pub ChannelHeld : ChannelMethod → Type 0
  ChannelHeld = ChannelFit P (IsKept roots) (Referred roots)

  abbrev pub ScpHeld : ScpMethod → Type 0
  ScpHeld = ScpFit P (IsKept roots) (Referred roots)

  abbrev pub MethodHeld : Method P.State → Type 0
  MethodHeld = MethodFit P (IsKept roots) (Referred roots)

  IsKept-keeper : Keeper P (IsKept roots) (Referred roots)
  IsKept-keeper = record {
    stable = λ c w h. h;
    unbuffered = λ n w h. h;
    session_initialize = λ self. IsKept-by _ (λ D rooted. session_initialize-Keeps P D self);
    key_initialize = λ self. IsKept-by _ (λ D rooted. key_initialize-Keeps P D self);
    get_publickey = λ self. IsKept-by _ (λ D rooted. get_publickey-Keeps P D self);
    channel_initialize = λ self v r.
        IsKept-by _ (λ D rooted. channel_initialize-Keeps P D self v (Referred-Held v r D rooted));
    scp_initialize = λ self v mode path r.
        IsKept-by _
          (λ D rooted. scp_initialize-Keeps P D self v mode path (Referred-Held v r D rooted));
  }

  pub run-IsKept :
      (m : Method P.State) (self : Value) → MethodHeld m → Keeps (IsKept roots) (run P m self)
  run-IsKept = run-keeper P (IsKept roots) (Referred roots) IsKept-keeper
