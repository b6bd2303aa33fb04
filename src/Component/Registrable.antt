-- ===== src/Component/Registrable.antt =====
-- `registrable` (framework/component/registrable.cpp) and `registry` (registry.cpp): the handles by
-- which components are known. A `long` is its 64-bit pattern.
use Prim.Native.String.{String}
use strange_io.Common.{ℕ, ◌+◌, ◌%◌, Option, List, [], ◌∷◌, ◌++◌, get_elem?, u64_mod}

pub data Ctype : Type 0 where
  unspec core unit : Ctype

pub record Rhandle : Type 0 where
  pub id : ℕ
  pub type : Ctype
  pub model : String
  pub label : String

-- `m_component_id` and `m_handle`, which the constructor leaves alone, are arguments of it.
pub record Registrable : Type 0 where
  pub model : String
  pub label : String
  pub type : Ctype
  pub component_id : ℕ
  pub handle : Rhandle

unfoldable pub set_id : ℕ → Registrable → Registrable
set_id id c = record c { component_id = id }

unfoldable pub set_handle : Rhandle → Registrable → Registrable
set_handle h c = record c { handle = h }

pub record Registry : Type 0 where
  pub current_id : ℕ
  pub entries : List Rhandle

unfoldable pub new_registry : Registry
new_registry = record { current_id = 0; entries = [] }

-- `register_component`. The local handle `i` starts with whatever its `id` holds (`stray`), and no
-- line of the body sets it.
unfoldable pub register_component : ℕ → Registrable → Registry → Registrable × Registry
unfolding set_id set_handle
register_component stray cmpt r =
    let named = set_id r.current_id cmpt in
    let i : Rhandle = record {
      id = stray;
      type = named.type;
      model = named.model;
      label = named.label;
    } in
    (
      set_handle i named,
      record { current_id = (r.current_id + 1) % u64_mod; entries = r.entries ++ i ∷ [] },
    )

-- `m_registry.at(id)`; `none` is the exception.
unfoldable pub with_id : ℕ → Registry → Option Rhandle
with_id id r = get_elem? r.entries id
