-- ===== src/Sound/Select.antt =====
-- `Channel.select`: it does not fault where the objects in its arrays are allocated.
use libssh_ruby.Base.{
  ℕ, suc, ◌*◌, Bool, true, false, length, ◌+◌, ℤ, ◌≡◌, ◌≢◌, refl, List, Option, none, some, arith,
}
use libssh_ruby.Value.{
  Value, nil, fixnum, array, object, Values, empty, entry, to_list, Result, ok, raised, fault,
}
use libssh_ruby.Libssh.{Platform, Handle, ssh_channel_select}
use libssh_ruby.Runtime.{World, Action, Heap, Holder, continue, channel, pure, lift, libssh, ◌>>=◌}
use libssh_ruby.Runtime.Api.{check_array, check_fixnum, fix2int, alloc_n, xfree}
use libssh_ruby.Runtime.Objects.{get_channel, load_channel, channel_at}
use libssh_ruby.Channel.Select.{
  check_channels, channel_handles, select_array, set_select_channels, free_array, select_timeout,
  s_select,
}
use libssh_ruby.Sound.{Allocated}

-- What holds where an action returns; it may raise, but not fault.
abbrev Ends : {S A : Type 0} → (A → World S → Type 0) → Result A × World S → Type 0
Ends Q (ok x, w) = Q x w
Ends Q (raised e, w) = Unit
Ends Q (fault, w) = ⊥

Ends-bind :
    {S A B : Type 0} (Q : A → World S → Type 0) (R : B → World S → Type 0) (m : Action S A)
    (k : A → Action S B) (w : World S)
    → Ends Q (m w)
    → ((x : A) (u : World S) → Q x u → Ends R (k x u))
    → Ends R ((m >>= k) w)
unfolding ◌>>=◌
Ends-bind {S} {A} {B} Q R m k w ends follows = go (m w) ends
  where
    go : (met : Result A × World S) → Ends Q met → Ends R (continue met.0 k met.1)
    go (ok x, u) q = follows x u q
    go (raised e, u) q = tt
    go (fault, u) q = q

Ends-sound :
    {S A : Type 0} (Q : A → World S → Type 0) (met : Result A × World S)
    → Ends Q met
    → met.0 ≢ fault
Ends-sound Q (ok x, u) q = ground arith
Ends-sound Q (raised e, u) q = ground arith
Ends-sound Q (fault, u) q = absurd q

-- The objects in an array are allocated.
abbrev pub AllAllocated : Heap → Values → Type 0
AllAllocated h empty = Unit
AllAllocated h (entry v vs) = Allocated h v × AllAllocated h vs

abbrev pub ArrayAllocated : Heap → Value → Type 0
ArrayAllocated h (array vs) = AllAllocated h vs
ArrayAllocated h v = Unit

-- The holder of a channel, in the state `w`.
abbrev Holds : {S : Type 0} → World S → ℕ → World S → Type 0
Holds w a u = (u ≡ w) × ((c : Handle) × (v : Value) × (w.heap a ≡ some (channel c v)))

got_channel :
    {S : Type 0} (w : World S) (a : ℕ) (o : Option Holder)
    → w.heap a ≡ o
    → o ≢ none
    → Ends (Holds w) (channel_at a o, w)
got_channel w a (some (channel c v)) e here = (refl, (c, v, e))
got_channel w a (some _) e here = tt
got_channel w a none e here = absurd (here refl)

get_channel-Ends :
    {S : Type 0} (v : Value) (w : World S) → Allocated w.heap v → Ends (Holds w) (get_channel v w)
unfolding get_channel
get_channel-Ends (object a) w there = got_channel w a (w.heap a) refl there
get_channel-Ends _ w there = tt

abbrev Unchanged : {S A : Type 0} → World S → A → World S → Type 0
Unchanged w x u = u ≡ w

load_channel-Ends :
    {S : Type 0} (a : ℕ) (c : Handle) (v : Value) (w : World S)
    → w.heap a ≡ some (channel c v)
    → Ends (Unchanged w) (load_channel a w)
unfolding load_channel
load_channel-Ends a c v w held = rw held refl

-- The number of buffers that an array for libssh takes.
abbrev count : Option (List Handle) → ℕ
count none = 0
count (some hs) = 1

abbrev Allocates : {S : Type 0} → World S → Option (List Handle) → World S → Type 0
Allocates w o u = (u.heap ≡ w.heap) × (u.buffers ≡ count o + w.buffers)

module _ (P : Platform) where
  check_channels-Ends :
      (vs : Values) (w : World P.State)
      → AllAllocated w.heap vs
      → Ends (Unchanged w) (check_channels P vs w)
  unfolding check_channels
  check_channels-Ends empty w there = refl
  check_channels-Ends (entry v vs) w (here, there) =
      Ends-bind (Holds w) (Unchanged w) (get_channel v) _ w (get_channel-Ends v w here)
        λ a u (e, held). rw e (check_channels-Ends vs w there)

  channel_handles-Ends :
      (vs : Values) (w : World P.State)
      → AllAllocated w.heap vs
      → Ends (Unchanged w) (channel_handles P vs w)
  unfolding channel_handles
  channel_handles-Ends empty w there = refl
  channel_handles-Ends (entry v vs) w (here, there) =
      Ends-bind (Holds w) (Unchanged w) (get_channel v) _ w (get_channel-Ends v w here)
        λ a u (e, (c, x, held)). rw e (
          Ends-bind (Unchanged w) (Unchanged w) (load_channel a) _ w
            (load_channel-Ends a c x w held)
            λ (c', x') u' e'. rw e' (
              Ends-bind (Unchanged w) (Unchanged w) (channel_handles P vs) _ w
                (channel_handles-Ends vs w there) λ rest u'' e''. e''))

  alloc_n-Ends :
      (b : Bool) (w : World P.State)
      → Ends (λ x u. u ≡ record w { buffers = suc w.buffers }) (alloc_n {S = P.State} b w)
  unfolding alloc_n
  alloc_n-Ends true w = refl
  alloc_n-Ends false w = tt

  select_array-Ends :
      (vs : Values) (w : World P.State)
      → AllAllocated w.heap vs
      → Ends (Allocates w) (select_array P vs w)
  unfolding select_array
  select_array-Ends empty w there = (refl, omega arith)
  select_array-Ends (entry v vs) w there =
      let w' = record w { buffers = suc w.buffers } in
      Ends-bind (Unchanged w) (Allocates w) (check_channels P (entry v vs)) _ w
        (check_channels-Ends (entry v vs) w there)
        λ checked u e. rw e (
          Ends-bind (Unchanged w') (Allocates w)
            (alloc_n (P.can_alloc (8 * suc (length (to_list (entry v vs)))))) _ w
            (alloc_n-Ends (P.can_alloc (8 * suc (length (to_list (entry v vs))))) w)
            λ done u' e'. rw e' (
              Ends-bind (Unchanged w') (Allocates w) (channel_handles P (entry v vs)) _ w'
                (channel_handles-Ends (entry v vs) w' there)
                λ handles u'' e''. rw e'' (refl, omega arith)))

  set_select_channels-Ends :
      (v : Value) (w : World P.State)
      → ArrayAllocated w.heap v
      → Ends (Allocates w) (set_select_channels P v w)
  unfolding set_select_channels check_array ◌>>=◌
  set_select_channels-Ends (array vs) w there = select_array-Ends vs w there
  set_select_channels-Ends v w there = tt

  xfree-Ends :
      (n : ℕ) (w : World P.State)
      → w.buffers ≡ suc n
      → Ends (λ x u. u.buffers ≡ n) (xfree {S = P.State} w)
  unfolding xfree
  xfree-Ends n w e = rw e refl

  free_array-Ends :
      (o : Option (List Handle)) (n : ℕ) (w : World P.State)
      → w.buffers ≡ count o + n
      → Ends (λ x u. u.buffers ≡ n) (free_array P o w)
  unfolding ◌>>=◌
  free_array-Ends none n w e = omega (arith, e)
  free_array-Ends (some hs) n w e = xfree-Ends n w (omega (arith, e))

  select_timeout_returns : (v : Value) → select_timeout P v ≢ fault
  unfolding check_fixnum fix2int
  select_timeout_returns nil = ground arith
  select_timeout_returns (fixnum i) = ground arith
  select_timeout_returns v = ground arith

  lift-Ends :
      {A : Type 0} (r : Result A) (w : World P.State) → r ≢ fault → Ends (Unchanged w) (lift r w)
  unfolding ◌>>=◌
  lift-Ends (ok x) w sound = refl
  lift-Ends (raised e) w sound = tt
  lift-Ends fault w sound = absurd (sound refl)

  abbrev Left : {A : Type 0} → ℕ → A → World P.State → Type 0
  Left n x u = u.buffers ≡ n

  pure-Ends : (n : ℕ) (w : World P.State) → w.buffers ≡ n → Ends (Left n) (pure nil w)
  unfolding ◌>>=◌
  pure-Ends n w left = left

  freed-Ends :
      (r q e : Option (List Handle)) (n : ℕ) (w : World P.State)
      → w.buffers ≡ count e + (count q + (count r + n))
      → Ends
          (Left n)
          ((free_array P r >>= λ x. free_array P q >>= λ y. free_array P e >>= λ z. pure nil) w)
  freed-Ends r q e n w left =
      Ends-bind (Left (count q + (count e + n))) (Left n) (free_array P r) _ w
        (free_array-Ends r (count q + (count e + n)) w (omega (arith, left)))
        λ x w1 left1.
          Ends-bind (Left (count e + n)) (Left n) (free_array P q) _ w1
            (free_array-Ends q (count e + n) w1 left1)
            λ y w2 left2.
              Ends-bind (Left n) (Left n) (free_array P e) _ w2 (free_array-Ends e n w2 left2)
                λ z w3 left3. pure-Ends n w3 left3

  called-Ends :
      (r q e : Option (List Handle)) (sec : Option ℤ) (n : ℕ) (w : World P.State)
      → w.buffers ≡ count e + (count q + (count r + n))
      → Ends (Left n) (
          (libssh P (ssh_channel_select r q e sec) >>= λ rc.
          free_array P r >>= λ x. free_array P q >>= λ y. free_array P e >>= λ z. pure nil)
            w)
  unfolding libssh ◌>>=◌
  called-Ends r q e sec n w left = freed-Ends r q e n _ left

  -- What is left of the buffers once the arrays are freed is what there was.
  select-Ends :
      (read write except timeout : Value) (w : World P.State)
      → ArrayAllocated w.heap read
      → ArrayAllocated w.heap write
      → ArrayAllocated w.heap except
      → Ends (Left w.buffers) (s_select P read write except timeout w)
  unfolding s_select
  select-Ends read write except timeout w there_read there_write there_except =
      Ends-bind (Unchanged w) (Left w.buffers) (lift (select_timeout P timeout)) _ w
        (lift-Ends (select_timeout P timeout) w (select_timeout_returns timeout))
        λ sec w0 e0. rw e0 (
          Ends-bind (Allocates w) (Left w.buffers) (set_select_channels P read) _ w
            (set_select_channels-Ends read w there_read)
            λ r w1 (h1, b1).
              Ends-bind (Allocates w1) (Left w.buffers) (set_select_channels P write) _ w1
                (set_select_channels-Ends write w1 (rw h1 there_write))
                λ q w2 (h2, b2).
                  Ends-bind (Allocates w2) (Left w.buffers) (set_select_channels P except) _ w2
                    (set_select_channels-Ends except w2 (rw (h2, h1) there_except))
                    λ e w3 (h3, b3). called-Ends r q e sec w.buffers w3 (omega (arith, b1, b2, b3)))

  pub select_sound :
      (read write except timeout : Value) (w : World P.State)
      → ArrayAllocated w.heap read
      → ArrayAllocated w.heap write
      → ArrayAllocated w.heap except
      → (s_select P read write except timeout w).0 ≢ fault
  select_sound read write except timeout w there_read there_write there_except =
      Ends-sound (Left w.buffers) (s_select P read write except timeout w)
        (select-Ends read write except timeout w there_read there_write there_except)
