-- ===== src/Runtime/Keeps.antt =====
-- Predicates on the state that actions keep, one rule for each way to build an action.
use libssh_ruby.Base.{Bool, true, false, if◌then◌else◌, ℕ, zero, suc}
use libssh_ruby.Value.{Value, object, Exception, Result, ok, raised, fault}
use libssh_ruby.Libssh.{Platform, Call}
use libssh_ruby.Runtime.{World, Action, pure, raise, lift, ◌>>=◌, libssh, continue}
use libssh_ruby.Runtime.Api.{ensure, cleaned, alloc_n, xfree, release}
use libssh_ruby.Runtime.Objects.{
  get_session, get_key, get_channel, get_scp, load_session, load_key, load_channel, load_scp,
}
use libssh_ruby.Runtime.Trace.{after}

-- `m` keeps `I`, whether it returns or raises.
pub record Keeps {S A : Type 0} (I : World S → Type 0) (m : Action S A) : Type 0 where
  pub at : (w : World S) → I w → I (m w).1

module _ {S A : Type 0} {I : World S → Type 0} where
  pub Keeps-pure : (x : A) → Keeps I (pure x)
  unfolding pure
  Keeps-pure x = record { at = λ w h. h }

  pub Keeps-raise : (e : Exception) → Keeps {A = A} I (raise e)
  unfolding raise
  Keeps-raise e = record { at = λ w h. h }

  pub Keeps-lift : (r : Result A) → Keeps I (lift r)
  unfolding lift
  Keeps-lift r = record { at = λ w h. h }

  pub Keeps-if :
      (b : Bool) (m n : Action S A) → Keeps I m → Keeps I n → Keeps I (if b then m else n)
  Keeps-if true m n km kn = km
  Keeps-if false m n km kn = kn

module _ {S A B : Type 0} {I : World S → Type 0} where
  Keeps-continue :
      (r : Result A) (f : A → Action S B) (w : World S)
      → ((x : A) → Keeps I (f x))
      → I w
      → I (continue r f w).1
  Keeps-continue (ok x) f w kf h = (kf x).at w h
  Keeps-continue (raised e) f w kf h = h
  Keeps-continue fault f w kf h = h

  pub Keeps-bind :
      (m : Action S A) (f : A → Action S B)
      → Keeps I m
      → ((x : A) → Keeps I (f x))
      → Keeps I (m >>= f)
  unfolding ◌>>=◌
  Keeps-bind m f km kf = record { at = λ w h. Keeps-continue (m w).0 f (m w).1 kf (km.at w h) }

module _ {S : Type 0} {I : World S → Type 0} where
  pub Keeps-get_session : (v : Value) → Keeps I (get_session {S = S} v)
  unfolding get_session
  Keeps-get_session (object a) = record { at = λ w h. h }
  Keeps-get_session _ = record { at = λ w h. h }

  pub Keeps-get_key : (v : Value) → Keeps I (get_key {S = S} v)
  unfolding get_key
  Keeps-get_key (object a) = record { at = λ w h. h }
  Keeps-get_key _ = record { at = λ w h. h }

  pub Keeps-get_channel : (v : Value) → Keeps I (get_channel {S = S} v)
  unfolding get_channel
  Keeps-get_channel (object a) = record { at = λ w h. h }
  Keeps-get_channel _ = record { at = λ w h. h }

  pub Keeps-get_scp : (v : Value) → Keeps I (get_scp {S = S} v)
  unfolding get_scp
  Keeps-get_scp (object a) = record { at = λ w h. h }
  Keeps-get_scp _ = record { at = λ w h. h }

  pub Keeps-load_session : (a : ℕ) → Keeps I (load_session {S = S} a)
  unfolding load_session
  Keeps-load_session a = record { at = λ w h. h }

  pub Keeps-load_key : (a : ℕ) → Keeps I (load_key {S = S} a)
  unfolding load_key
  Keeps-load_key a = record { at = λ w h. h }

  pub Keeps-load_channel : (a : ℕ) → Keeps I (load_channel {S = S} a)
  unfolding load_channel
  Keeps-load_channel a = record { at = λ w h. h }

  pub Keeps-load_scp : (a : ℕ) → Keeps I (load_scp {S = S} a)
  unfolding load_scp
  Keeps-load_scp a = record { at = λ w h. h }

  Keeps-ended :
      (r : Result Value) (cleanup : Action S Value) (w : World S)
      → Keeps I cleanup
      → I w
      → I (cleaned r cleanup w).1
  Keeps-ended (ok v) cleanup w kc h = kc.at w h
  Keeps-ended (raised e) cleanup w kc h = kc.at w h
  Keeps-ended fault cleanup w kc h = h

  pub Keeps-ensure :
      (body cleanup : Action S Value)
      → Keeps I body
      → Keeps I cleanup
      → Keeps I (ensure body cleanup)
  unfolding ensure
  Keeps-ensure body cleanup kb kc = record {
    at = λ w h. Keeps-ended (body w).0 cleanup (body w).1 kc (kb.at w h);
  }

-- A call of libssh changes only libssh and the record of calls.
abbrev pub Stable : (P : Platform) → (World P.State → Type 0) → Type 0
Stable P I = (c : Call) (w : World P.State) → I w → I (after P c w)

pub Keeps-libssh :
    (P : Platform) {I : World P.State → Type 0} → Stable P I → (c : Call) → Keeps I (libssh P c)
unfolding libssh
Keeps-libssh P stable c = record { at = λ w h. stable c w h }

-- A predicate that says nothing of the buffers.
abbrev pub Unbuffered : {S : Type 0} → (World S → Type 0) → Type 0
Unbuffered {S} I = (n : ℕ) (w : World S) → I w → I (record w { buffers = n })

module _ {S : Type 0} {I : World S → Type 0} (unbuffered : Unbuffered I) where
  pub Keeps-alloc_n : (b : Bool) → Keeps I (alloc_n {S = S} b)
  unfolding alloc_n
  Keeps-alloc_n true = record { at = λ w h. unbuffered (suc w.buffers) w h }
  Keeps-alloc_n false = record { at = λ w h. h }

  Keeps-release : (n : ℕ) (w : World S) → I w → I (release n w).1
  Keeps-release zero w h = h
  Keeps-release (suc n) w h = unbuffered n w h

  pub Keeps-xfree : Keeps I (xfree {S = S})
  unfolding xfree
  Keeps-xfree = record { at = λ w h. Keeps-release w.buffers w h }

pub ruleset keeps_rules = (
  Keeps-pure, Keeps-raise, Keeps-lift, Keeps-if, Keeps-bind, Keeps-libssh, Keeps-ensure,
  Keeps-get_session, Keeps-get_key, Keeps-get_channel, Keeps-get_scp, Keeps-load_session,
  Keeps-load_key, Keeps-load_channel, Keeps-load_scp,
)
