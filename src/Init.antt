-- ===== src/Init.antt =====
-- What the `Init` functions of ext/libssh_ruby do to Ruby: they define a module, classes, methods,
-- constants and IDs, one after another. A definition is a value, and `define` runs it.
pub mod SessionTable
pub mod Tables
pub mod Names
pub mod Dispatch
pub mod Arity
pub mod Constants
pub mod New
use libssh_ruby.Base.{
  ℕ, String, ℤ, Bytes, Bool, true, false, ◌&&◌, List, [], ◌∷◌, ◌++◌, Option, none, some, ◌==◌,
  str_eq, if◌then◌else◌,
}
use libssh_ruby.Value.{Value, other, no_method, arg_error, type_error, local_jump_error}
use libssh_ruby.Libssh.{Platform, Call}
use libssh_ruby.Runtime.{Action, pure, raise, ◌>>=◌}
use libssh_ruby.Runtime.Api.{Keywords}
use libssh_ruby.Methods.{Method, run}

-- The module and the classes, by the variables that hold them.
pub data Owner : Type 0 where
  lib_module session_class channel_class scp_class key_class error_class : Owner

-- The variables of IDs.
pub data Ident : Type 0 where
  id_none id_warn id_info id_debug id_trace : Ident
  id_password id_publickey id_hostbased id_interactive id_gssapi_mic : Ident
  id_stderr id_timeout id_read id_write id_code : Ident

abbrev pub Block : Type 0 → Type 0
Block S = Option (Action S Value)

-- A C function with the arity that it is defined with; `variadic` is -1.
pub data Function (S : Type 0) : Type 0 where
  nullary : (Block S → Method S) → Function S
  unary : (Value → Method S) → Function S
  binary : (Block S → Value → Value → Method S) → Function S
  ternary : (Value → Value → Value → Method S) → Function S
  variadic : (List Value → Keywords → Method S) → Function S

-- A function that a module or a class has as its own.
pub data Singleton (S : Type 0) : Type 0 where
  quaternary : (Value → Value → Value → Value → Action S Value) → Singleton S
  any_number : (List Value → Action S Value) → Singleton S

pub data Definition (S : Type 0) : Type 0 where
  set_up : Call → Definition S
  define_module : Owner → String → Definition S
  define_class_under : Owner → String → Owner → Definition S
  define_alloc_func : Owner → Action S Value → Definition S
  define_method : Owner → String → Function S → Definition S
  define_singleton_method : Owner → String → Singleton S → Definition S
  define_const : Owner → String → Value → Definition S
  define_reader : Owner → String → Definition S
  intern : Ident → String → Definition S

-- What libssh's headers say: the values of its enumerators and macros, its version, and whether
-- the build found the type of ED25519 keys.
pub record Header : Type 0 where
  pub constant : String → ℤ
  pub version : Bytes
  pub has_ed25519 : Bool

-- All that is defined so far, the last definition of each kind first.
pub record Registry (S : Type 0) : Type 0 where
  pub calls : List Call
  pub owners : List (Owner × String)
  pub allocators : List (Owner × Action S Value)
  pub methods : List (Owner × String × Function S)
  pub singletons : List (Owner × String × Singleton S)
  pub constants : List (Owner × String × Value)
  pub readers : List (Owner × String)
  pub ids : List (Ident × String)

abbrev pub nothing_defined : {S : Type 0} → Registry S
nothing_defined = record {
  calls = [];
  owners = [];
  allocators = [];
  methods = [];
  singletons = [];
  constants = [];
  readers = [];
  ids = [];
}

abbrev number : Owner → ℕ
number lib_module = 0
number session_class = 1
number channel_class = 2
number scp_class = 3
number key_class = 4
number error_class = 5

abbrev id_number : Ident → ℕ
id_number id_none = 0
id_number id_warn = 1
id_number id_info = 2
id_number id_debug = 3
id_number id_trace = 4
id_number id_password = 5
id_number id_publickey = 6
id_number id_hostbased = 7
id_number id_interactive = 8
id_number id_gssapi_mic = 9
id_number id_stderr = 10
id_number id_timeout = 11
id_number id_read = 12
id_number id_write = 13
id_number id_code = 14

-- The name whose ID a variable holds.
abbrev pub id_name : Ident → List (Ident × String) → Option String
id_name i [] = none
id_name i ((j, name) ∷ rest) = if id_number i == id_number j then some name else id_name i rest

abbrev same_owner : Owner → Owner → Bool
same_owner o p = number o == number p

module _ {ℓ} {A : Type ℓ} where
  abbrev has_owner : Owner → List (Owner × A) → Bool
  has_owner o [] = false
  has_owner o ((p, x) ∷ rest) = if same_owner o p then true else has_owner o rest

  -- The definition that a name stands for in a class.
  abbrev pub find : Owner → String → List (Owner × String × A) → Option A
  find o name [] = none
  find o name ((p, key, x) ∷ rest) =
      if same_owner o p && str_eq key name then some x else find o name rest

abbrev pub find_allocator :
    {S : Type 0} → Owner → List (Owner × Action S Value) → Option (Action S Value)
find_allocator o [] = none
find_allocator o ((p, alloc) ∷ rest) = if same_owner o p then some alloc else find_allocator o rest

-- Keywords reach a function that does not scan for them as a hash behind the other arguments.
abbrev pub with_hash : List Value → Keywords → List Value
with_hash argv [] = argv
with_hash argv (k ∷ ks) = argv ++ other 0 ∷ []

module _ {S : Type 0} where
  -- Where the variable of the module or class is not yet set, the behaviour is undefined.
  abbrev within : Owner → Registry S → Registry S → Option (Registry S)
  within o r r' = if has_owner o r.owners then some r' else none

  abbrev pub define : Definition S → Registry S → Option (Registry S)
  define (set_up c) r = some (record r { calls = c ∷ r.calls })
  define (define_module o name) r = some (record r { owners = (o, name) ∷ r.owners })
  define (define_class_under under name o) r =
      within under r (record r { owners = (o, name) ∷ r.owners })
  define (define_alloc_func o f) r = within o r (record r { allocators = (o, f) ∷ r.allocators })
  define (define_method o name f) r = within o r (record r { methods = (o, name, f) ∷ r.methods })
  define (define_singleton_method o name f) r =
      within o r (record r { singletons = (o, name, f) ∷ r.singletons })
  define (define_const o name v) r =
      within o r (record r { constants = (o, name, v) ∷ r.constants })
  define (define_reader o name) r = within o r (record r { readers = (o, name) ∷ r.readers })
  define (intern id name) r = some (record r { ids = (id, name) ∷ r.ids })

  abbrev pub define_all : List (Definition S) → Registry S → Option (Registry S)
  define_all [] r = some r
  define_all (d ∷ ds) r = elim (define d r) [ none ↦ none | some r' ↦ define_all ds r' ]

  -- The call that a function makes of the arguments; `none` for a wrong number of them.
  abbrev fixed : Function S → Block S → List Value → Option (Method S)
  fixed (nullary f) block [] = some (f block)
  fixed (unary f) block (u ∷ []) = some (f u)
  fixed (binary f) block (u ∷ v ∷ []) = some (f block u v)
  fixed (ternary f) block (u ∷ v ∷ x ∷ []) = some (f u v x)
  fixed _ block argv = none

  abbrev pub arguments : Function S → Block S → List Value → Keywords → Option (Method S)
  arguments (variadic f) block argv opts = some (f argv opts)
  arguments f block argv opts = fixed f block (with_hash argv opts)

-- Ruby's call of a method by its name.
module _ (P : Platform) where
  abbrev pub call_resolved : Option (Method P.State) → Value → Action P.State Value
  call_resolved none self = raise arg_error
  call_resolved (some m) self = run P m self

  abbrev pub call_found :
      Option (Function P.State)
      → List Value
      → Keywords
      → Block P.State
      → Value
      → Action P.State Value
  call_found none argv opts block self = raise no_method
  call_found (some f) argv opts block self = call_resolved (arguments f block argv opts) self

  unfoldable pub invoke :
      Registry P.State
      → Owner
      → String
      → List Value
      → Keywords
      → Block P.State
      → Value
      → Action P.State Value
  invoke r o name argv opts block self = call_found (find o name r.methods) argv opts block self

  abbrev made_by :
      Option (Action P.State Value) → (Value → Action P.State Value) → Action P.State Value
  made_by none initialize = raise type_error
  made_by (some alloc) initialize =
      alloc >>= λ instance. initialize instance >>= λ ignored. pure instance

  -- `Class#new`: the allocator of the class, and `initialize`, whose result is dropped.
  unfoldable pub new_instance : Registry P.State → Owner → List Value → Action P.State Value
  unfolding ◌>>=◌ invoke
  new_instance r o argv =
      made_by (find_allocator o r.allocators) (invoke r o "initialize" argv [] none)

-- Ruby's call of a function that a module or a class has as its own.
abbrev pub call_own : {S : Type 0} → Option (Singleton S) → List Value → Action S Value
call_own none argv = raise no_method
call_own (some (any_number f)) argv = f argv
call_own (some (quaternary f)) (u ∷ v ∷ x ∷ y ∷ []) = f u v x y
call_own (some (quaternary f)) argv = raise arg_error
