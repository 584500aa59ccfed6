-- ===== src/Init/Arity.antt =====
-- Calls by name with a wrong number of arguments.
use libssh_ruby.Base.{
  ℕ, String, ℤ, Bytes, ◌≡◌, ◌≢◌, refl, ap, Bool, true, false, List, [], ◌∷◌, Option, none, some,
  length, arith,
}
use libssh_ruby.Value.{Value, arg_error, raised}
use libssh_ruby.Libssh.{Platform}
use libssh_ruby.Runtime.{World, ◌>>=◌}
use libssh_ruby.Methods.{
  SessionMethod, ChannelMethod, ScpMethod, KeyMethod, Method, of_session, of_channel, of_scp,
  of_key,
}
use libssh_ruby.Init.{
  Block, Function, Header, find, call_found, call_resolved, nullary, unary, binary, ternary,
  variadic, arguments,
}
use libssh_ruby.Init.Names.{method_owner, method_name, method_arity}
use libssh_ruby.Init.Dispatch.{header, loaded, call}

module _ {S : Type 0} where
  -- The number of arguments that Ruby checks for a function; `none` where the function does that.
  abbrev function_arity : Option (Function S) → Option ℕ
  function_arity (some (nullary f)) = some 0
  function_arity (some (unary f)) = some 1
  function_arity (some (binary f)) = some 2
  function_arity (some (ternary f)) = some 3
  function_arity _ = none

  fixed_wrong :
      (f : Function S) (n : ℕ) (argv : List Value) (block : Block S)
      → function_arity (some f) ≡ some n
      → length argv ≢ n
      → arguments f block argv [] ≡ none
  fixed_wrong (nullary f) n [] block e h = absurd (h (ground arith))
  fixed_wrong (nullary f) n (x ∷ xs) block e h = refl
  fixed_wrong (unary f) n [] block e h = refl
  fixed_wrong (unary f) n (x ∷ []) block e h = absurd (h (ground arith))
  fixed_wrong (unary f) n (x ∷ y ∷ ys) block e h = refl
  fixed_wrong (binary f) n [] block e h = refl
  fixed_wrong (binary f) n (x ∷ []) block e h = refl
  fixed_wrong (binary f) n (x ∷ y ∷ []) block e h = absurd (h (ground arith))
  fixed_wrong (binary f) n (x ∷ y ∷ z ∷ zs) block e h = refl
  fixed_wrong (ternary f) n [] block e h = refl
  fixed_wrong (ternary f) n (x ∷ []) block e h = refl
  fixed_wrong (ternary f) n (x ∷ y ∷ []) block e h = refl
  fixed_wrong (ternary f) n (x ∷ y ∷ z ∷ []) block e h = absurd (h (ground arith))
  fixed_wrong (ternary f) n (x ∷ y ∷ z ∷ u ∷ us) block e h = refl
  fixed_wrong (variadic f) n argv block e h = cc

module _ (P : Platform) (n : ℕ) (argv : List Value) (block : Block P.State) (self : Value)
    (w : World P.State) (wrong : length argv ≢ n) where
  found_wrong :
      (f : Option (Function P.State))
      → function_arity f ≡ some n
      → call_found P f argv [] block self w ≡ (raised arg_error, w)
  unfolding ◌>>=◌
  found_wrong none e = cc
  found_wrong (some f) e = ap (λ m. call_resolved P m self w) (fixed_wrong f n argv block e wrong)

module _ (P : Platform) (constant : String → ℤ) (version : Bytes) (n : ℕ) (argv : List Value)
    (block : Block P.State) (self : Value) (w : World P.State) (wrong : length argv ≢ n) where
  abbrev found : Bool → Method P.State → Option (Function P.State)
  unfolding loaded
  found ed m = elim (loaded P (header P constant version ed)) [
    | none ↦ none
    | some r ↦ find (method_owner m) (method_name m) r.methods
  ]

  session_wrong :
      (ed : Bool) (m : SessionMethod)
      → method_arity {S = P.State} (of_session m) ≡ some n
      → call P
          (header P constant version ed)
          (method_owner {S = P.State} (of_session m))
          (method_name {S = P.State} (of_session m))
          argv
          []
          block
          self
          w
        ≡ (raised arg_error, w)
  unfolding call
  session_wrong true SessionMethod.connect e =
      found_wrong P n argv block self w wrong (found true (of_session SessionMethod.connect)) e
  session_wrong true m e = found_wrong P n argv block self w wrong (found true (of_session m)) e
  session_wrong false SessionMethod.connect e =
      found_wrong P n argv block self w wrong (found false (of_session SessionMethod.connect)) e
  session_wrong false m e = found_wrong P n argv block self w wrong (found false (of_session m)) e

  channel_wrong :
      (ed : Bool) (m : ChannelMethod)
      → method_arity {S = P.State} (of_channel m) ≡ some n
      → call P
          (header P constant version ed)
          (method_owner {S = P.State} (of_channel m))
          (method_name {S = P.State} (of_channel m))
          argv
          []
          block
          self
          w
        ≡ (raised arg_error, w)
  unfolding call
  channel_wrong true ChannelMethod.close e =
      found_wrong P n argv block self w wrong (found true (of_channel ChannelMethod.close)) e
  channel_wrong true m e = found_wrong P n argv block self w wrong (found true (of_channel m)) e
  channel_wrong false ChannelMethod.close e =
      found_wrong P n argv block self w wrong (found false (of_channel ChannelMethod.close)) e
  channel_wrong false m e = found_wrong P n argv block self w wrong (found false (of_channel m)) e

  scp_wrong :
      (ed : Bool) (m : ScpMethod)
      → method_arity {S = P.State} (of_scp m) ≡ some n
      → call P
          (header P constant version ed)
          (method_owner {S = P.State} (of_scp m))
          (method_name {S = P.State} (of_scp m))
          argv
          []
          block
          self
          w
        ≡ (raised arg_error, w)
  unfolding call
  scp_wrong true ScpMethod.close e =
      found_wrong P n argv block self w wrong (found true (of_scp ScpMethod.close)) e
  scp_wrong true m e = found_wrong P n argv block self w wrong (found true (of_scp m)) e
  scp_wrong false ScpMethod.close e =
      found_wrong P n argv block self w wrong (found false (of_scp ScpMethod.close)) e
  scp_wrong false m e = found_wrong P n argv block self w wrong (found false (of_scp m)) e

  key_wrong :
      (ed : Bool) (m : KeyMethod)
      → method_arity {S = P.State} (of_key m) ≡ some n
      → call P
          (header P constant version ed)
          (method_owner {S = P.State} (of_key m))
          (method_name {S = P.State} (of_key m))
          argv
          []
          block
          self
          w
        ≡ (raised arg_error, w)
  unfolding call
  key_wrong true KeyMethod.sha1 e =
      found_wrong P n argv block self w wrong (found true (of_key KeyMethod.sha1)) e
  key_wrong true m e = found_wrong P n argv block self w wrong (found true (of_key m)) e
  key_wrong false KeyMethod.sha1 e =
      found_wrong P n argv block self w wrong (found false (of_key KeyMethod.sha1)) e
  key_wrong false m e = found_wrong P n argv block self w wrong (found false (of_key m)) e

  method_wrong :
      (ed : Bool) (m : Method P.State)
      → method_arity m ≡ some n
      → call P (header P constant version ed) (method_owner m) (method_name m) argv [] block self w
        ≡ (raised arg_error, w)
  unfolding call
  method_wrong ed (of_session m) e = session_wrong ed m e
  method_wrong ed (of_channel m) e = channel_wrong ed m e
  method_wrong ed (of_scp m) e = scp_wrong ed m e
  method_wrong ed (of_key m) e = key_wrong ed m e
  method_wrong true m e = found_wrong P n argv block self w wrong (found true m) e
  method_wrong false m e = found_wrong P n argv block self w wrong (found false m) e

-- In a process that has loaded the extension, a call without keywords of a method whose C function
-- has a fixed arity, with any other number of arguments, raises an ArgumentError and changes
-- nothing.
pub call-wrong_number :
    (P : Platform) (H : Header) (m : Method P.State) (n : ℕ) (argv : List Value)
    (block : Block P.State) (self : Value) (w : World P.State)
    → method_arity m ≡ some n
    → length argv ≢ n
    → call P H (method_owner m) (method_name m) argv [] block self w ≡ (raised arg_error, w)
call-wrong_number P H m n argv block self w e wrong =
    method_wrong P H.constant H.version n argv block self w wrong H.has_ed25519 m e
