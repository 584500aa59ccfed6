-- ===== src/Channel/Select/Arrays.antt =====
-- The arrays that `Channel.select` makes for libssh, and what becomes of them.
use libssh_ruby.Base.{
  ℕ, suc, ◌*◌, ℤ, ◌≡◌, refl, Bool, true, false, ◌&&◌, List, [], ◌∷◌, ◌++◌, length, Option, none,
  some, arith,
}
use libssh_ruby.Value.{
  Value, nil, object, array, Values, empty, entry, to_list, type_error, ok, raised,
}
use libssh_ruby.Libssh.{Handle, Platform, ssh_channel_select}
use libssh_ruby.Runtime.{Holder, channel, Heap, World, ◌>>=◌}
use libssh_ruby.Runtime.Api.{xfree}
use libssh_ruby.Runtime.Trace.{after}
use libssh_ruby.Channel.Select.{
  check_channels, channel_handles, select_array, set_select_channels, select_timeout, free_array,
  s_select,
}

abbrev handle_of : Option Holder → Option Handle
handle_of (some (channel c v)) = some c
handle_of _ = none

-- The handle of a value that is a channel.
abbrev handle_at : Heap → Value → Option Handle
handle_at heap (object a) = handle_of (heap a)
handle_at heap _ = none

abbrev cons? : Option Handle → Option (List Handle) → Option (List Handle)
cons? (some c) (some cs) = some (c ∷ cs)
cons? _ _ = none

-- The handles of an array of channels; `none` if an entry is no channel.
abbrev pub handles : Heap → Values → Option (List Handle)
handles heap empty = some []
handles heap (entry v vs) = cons? (handle_at heap v) (handles heap vs)

-- The array that libssh is handed: NULL for no channels, or the handles and a NULL behind them.
abbrev pub terminated : List Handle → Option (List Handle)
terminated [] = none
terminated (c ∷ cs) = some (c ∷ cs ++ none ∷ [])

-- The buffers in use after such an array is made.
abbrev pub held : List Handle → ℕ → ℕ
held [] n = n
held (c ∷ cs) n = suc n

check_channels_lem :
    (P : Platform) (w : World P.State) (vs : Values) (cs : List Handle)
    → handles w.heap vs ≡ some cs
    → check_channels P vs w ≡ (ok tt, w)
unfolding check_channels
check_channels_lem P w empty cs h = refl
check_channels_lem P w (entry v vs) [] h = ground arith
check_channels_lem P w (entry v vs) (c ∷ cs) h = ground (arith, check_channels_lem P w vs cs)

module _ (P : Platform) (w : World P.State) where
  channel_handles_lem :
      (n : ℕ) (vs : Values) (cs : List Handle)
      → handles w.heap vs ≡ some cs
      → channel_handles P vs (record w { buffers = n }) ≡ (ok cs, record w { buffers = n })
  unfolding channel_handles
  channel_handles_lem n empty cs h = ground arith
  channel_handles_lem n (entry v vs) [] h = ground arith
  channel_handles_lem n (entry v vs) (c ∷ cs) h = ground (arith, channel_handles_lem n vs cs)

  select_array_lem :
      (n : ℕ) (vs : Values) (cs : List Handle)
      → handles w.heap vs ≡ some cs
      → P.can_alloc (8 * suc (length (to_list vs))) ≡ true
      → select_array P vs (record w { buffers = n })
        ≡ (ok (terminated cs), record w { buffers = held cs n })
  unfolding select_array
  select_array_lem n empty [] h space = refl
  select_array_lem n empty (c ∷ cs) h space = ground arith
  select_array_lem n (entry v vs) [] h space = ground arith
  select_array_lem n (entry v vs) (c ∷ cs) h space = ground (
    arith,
    check_channels_lem P (record w { buffers = n }) (entry v vs) (c ∷ cs) h,
    channel_handles_lem (suc n) (entry v vs) (c ∷ cs) h,
  )

held_comm : (cs ds : List Handle) (n : ℕ) → held cs (held ds n) ≡ held ds (held cs n)
held_comm [] ds n = refl
held_comm (c ∷ cs) [] n = refl
held_comm (c ∷ cs) (d ∷ ds) n = refl

-- An entry that is no channel, among entries that are all live objects or no objects.
abbrev is_live : Heap → Value → Bool
is_live heap (object a) = elim (heap a) [ none ↦ false | some h ↦ true ]
is_live heap _ = true

abbrev pub all_live : Heap → Values → Bool
all_live heap empty = true
all_live heap (entry v vs) = is_live heap v && all_live heap vs

check_channels-rejected :
    (P : Platform) (w : World P.State) (vs : Values)
    → handles w.heap vs ≡ none
    → all_live w.heap vs ≡ true
    → check_channels P vs w ≡ (raised type_error, w)
unfolding check_channels
check_channels-rejected P w empty h live = ground arith
check_channels-rejected P w (entry v vs) h live = ground (arith, check_channels-rejected P w vs)

set_select_channels-rejected :
    (P : Platform) (w : World P.State) (vs : Values)
    → handles w.heap vs ≡ none
    → all_live w.heap vs ≡ true
    → set_select_channels P (array vs) w ≡ (raised type_error, w)
unfolding set_select_channels select_array
set_select_channels-rejected P w empty h live = cc
set_select_channels-rejected P w (entry v vs) h live =
    ground (arith, check_channels-rejected P w (entry v vs) h live)

module _ (P : Platform) (space : (n : ℕ) → P.can_alloc n ≡ true) (w : World P.State) where
  set_select_channels_lem :
      (n : ℕ) (vs : Values) (cs : List Handle)
      → handles w.heap vs ≡ some cs
      → set_select_channels P (array vs) (record w { buffers = n })
        ≡ (ok (terminated cs), record w { buffers = held cs n })
  unfolding set_select_channels
  set_select_channels_lem n vs cs h =
      ground (arith, select_array_lem P w n vs cs h (space (8 * suc (length (to_list vs)))))

  free_array_lem :
      (n : ℕ) (cs : List Handle)
      → free_array P (terminated cs) (record w { buffers = held cs n })
        ≡ (ok tt, record w { buffers = n })
  unfolding xfree ◌>>=◌
  free_array_lem n [] = refl
  free_array_lem n (c ∷ cs) = refl

module _ (P : Platform) (space : (n : ℕ) → P.can_alloc n ≡ true) (w : World P.State) where
  -- Where memory does not run out, `select` on three arrays of channels, with nil or a fixnum
  -- within an `int` as the timeout, calls `ssh_channel_select` once, on the handles of each array
  -- with a NULL behind them, or on NULL for an empty array. Every array it allocated is freed, and
  -- the result is nil.
  pub select_lem :
      (r q e : Values) (rs qs es : List Handle) (timeout : Value) (sec : Option ℤ)
      → handles w.heap r ≡ some rs
      → handles w.heap q ≡ some qs
      → handles w.heap e ≡ some es
      → select_timeout P timeout ≡ ok sec
      → s_select P (array r) (array q) (array e) timeout w ≡ (
        ok nil,
        after P (ssh_channel_select (terminated rs) (terminated qs) (terminated es) sec) w,
      )
  unfolding s_select
  select_lem r q e rs qs es timeout sec hr hq he timed =
      let n = w.buffers in
      let c = ssh_channel_select (terminated rs) (terminated qs) (terminated es) sec in
      ground (
        arith,
        set_select_channels_lem P space w n r rs hr,
        set_select_channels_lem P space w (held rs n) q qs hq,
        set_select_channels_lem P space w (held qs (held rs n)) e es he,
        free_array_lem P space (after P c w) (held es (held qs n)) rs,
        free_array_lem P space (after P c w) (held es n) qs,
        free_array_lem P space (after P c w) n es,
        held_comm es qs (held rs n),
        held_comm es rs n,
        held_comm qs rs n,
        held_comm es qs n,
        held_comm es rs (held qs n),
      )

  -- Where memory does not run out, the first array of `select` holds channels and is not empty, the
  -- timeout is accepted, and the second array, of live objects or no objects, has an entry that is
  -- no channel, `select` raises a TypeError and never calls libssh; the array that it allocated for
  -- the first one is never freed.
  pub select-leaks :
      (r q : Values) (e timeout : Value) (c : Handle) (cs : List Handle) (sec : Option ℤ)
      → handles w.heap r ≡ some (c ∷ cs)
      → handles w.heap q ≡ none
      → all_live w.heap q ≡ true
      → select_timeout P timeout ≡ ok sec
      → s_select P (array r) (array q) e timeout w
        ≡ (raised type_error, record w { buffers = suc w.buffers })
  unfolding s_select
  select-leaks r q e timeout c cs sec hr hq live timed = ground (
    arith,
    set_select_channels_lem P space w w.buffers r (c ∷ cs) hr,
    set_select_channels-rejected P (record w { buffers = suc w.buffers }) q hq live,
  )
