-- ===== src/Web/Pool.antt =====
-- web/syncPoolHandler_elements.go: the pool of open databases, one per user, with its least
-- recently used ones closed when it is full. A handler is known by its number, the count of those
-- made before it. A node of the list `lru` is known by the number of the handler that it holds,
-- and paths and opening of files are a parameter.
pub mod Recent
pub mod Removal
pub mod Invariant
pub mod Eviction
pub mod Create
pub mod Get
pub mod Stop
pub mod Path
pub mod Steps
pub mod Race
use go_syncstorage.Prelude.{
  ℕ, zero, suc, ◌+◌, ◌-◌, ◌/◌, Bool, true, false, ◌&&◌, Option, none, some, List, [], ◌∷◌, ◌++◌,
  ltb, leb, ◌==◌, if◌then◌else◌, length, take, drop,
}
use go_syncstorage.Prelude.Text.{Text, codes, text_eq}
use go_syncstorage.Prelude.Assoc.{find_key, remove_key, put_key}

-- poolElement, with the number of its SyncUserHandler
pub record Element : Type 0 where
  pub uid : Text
  pub handler : ℕ

-- handlerPool, with the number of handlers made and those of the stopped ones
pub record Pool : Type 0 where
  pub base : List Text
  pub elements : List (Text × Element)
  pub lru : List Element
  pub lrumap : List (Text × ℕ)
  pub max_pool_size : ℕ
  pub made : ℕ
  pub stopped : List ℕ

pub data PoolError : Type 0 where
  element_stopped no_data_dir no_db : PoolError

-- An element and whether it was created; MoveToFront of a nil node panics
pub data Got : Type 0 where
  got : Element → Bool → Got
  failed : PoolError → Got
  panicked : Got

-- The path functions and the effects on files: does os.MkdirAll, does NewDB succeed?
pub record Files : Type 0 where
  pub join : List Text → Text
  pub make_dir : Text → Bool
  pub open_db : Text → Bool

-- newHandlerPool, after its path was split
unfoldable pub new_handler_pool : List Text → ℕ → Pool
new_handler_pool base max_pool_size = record {
  base = base;
  elements = [];
  lru = [];
  lrumap = [];
  max_pool_size = max_pool_size;
  made = 0;
  stopped = [];
}

-- container/list: the node that holds a handler, Remove, MoveToFront, Back
unfoldable pub find_node : ℕ → List Element → Option Element
find_node n [] = none
find_node n (e ∷ l) = if e.handler == n then some e else find_node n l

unfoldable pub remove_node : ℕ → List Element → List Element
remove_node n [] = []
remove_node n (e ∷ l) = let rest = remove_node n l in if e.handler == n then rest else e ∷ rest

unfoldable pub move_to_front : ℕ → List Element → List Element
unfolding find_node remove_node
move_to_front n l = elim (find_node n l) [ none ↦ l | some e ↦ e ∷ remove_node n l ]

unfoldable pub back : List Element → Option Element
back [] = none
back (e ∷ []) = some e
back (e ∷ e' ∷ l) = back (e' ∷ l)

unfoldable pub member : ℕ → List ℕ → Bool
member n [] = false
member n (m ∷ l) = if m == n then true else member n l

-- IsStopped and StopHTTP of a handler
abbrev pub is_stopped : ℕ → Pool → Bool
is_stopped n p = member n p.stopped

abbrev pub stop_http : Element → Pool → Pool
stop_http e p = record p { stopped = e.handler ∷ p.stopped }

-- What cleanupHandlers does under the lock
unfoldable pub forget : Element → Pool → Pool
unfolding remove_node
forget e p = record p {
  lru = remove_node e.handler p.lru;
  lrumap = remove_key e.uid p.lrumap;
  elements = remove_key e.uid p.elements;
}

-- cleanupHandlers
unfoldable pub cleanup_handlers : ℕ → Pool → Pool
unfolding back
cleanup_handlers zero p = p
cleanup_handlers (suc n) p = elim (back p.lru) [
  | none ↦ p
  | some e ↦ cleanup_handlers n (forget e (stop_http e p))
]

-- stopHandlers
unfoldable pub stop_handlers : Pool → Pool
unfolding cleanup_handlers
stop_handlers p = cleanup_handlers (length p.lru) p

-- s[i:j]
abbrev pub slice : ℕ → ℕ → Text → Text
slice i j s = take (j - i) (drop i s)

-- TwoLevelPath
unfoldable pub two_level_path : Text → List Text
two_level_path uid =
    let l = length uid in
    if leb 4 l
    then (slice (l - 1) l uid ++ slice (l - 2) (l - 1) uid)
      ∷ (slice (l - 3) (l - 2) uid ++ slice (l - 4) (l - 3) uid)
      ∷ []
    else if leb 2 l
    then (slice (l - 1) l uid ++ slice (l - 2) (l - 1) uid) ∷ []
    else []

abbrev pub memory_only : List Text → Bool
memory_only [] = false
memory_only (b ∷ []) = text_eq b (codes ":memory:")
memory_only (b ∷ b' ∷ bs) = false

-- The room that getElement makes when the pool is over its size
unfoldable pub make_room : Pool → Pool
unfolding cleanup_handlers
make_room p =
    if ltb p.max_pool_size (length p.lru) then cleanup_handlers (1 + p.max_pool_size / 10) p else p

-- The element that getElement makes, and its places in the pool
abbrev pub fresh : Text → Pool → Element
fresh uid p = record { uid = uid; handler = p.made }

unfoldable pub insert_element : Text → Pool → Pool
insert_element uid p = record p {
  elements = put_key uid (fresh uid p) p.elements;
  lru = fresh uid p ∷ p.lru;
  lrumap = put_key uid p.made p.lrumap;
  made = p.made + 1;
}

-- NewDB and what follows it, after room was made
unfoldable pub open_element : Bool → Text → Pool → Got × Pool
unfolding insert_element
open_element opens uid p =
    if opens then (got (fresh uid p) true, insert_element uid p) else (failed no_db, p)

-- The branch of an element that is in the pool
unfoldable pub use_element : Element → Text → Pool → Got × Pool
unfolding member move_to_front
use_element e uid p =
    if is_stopped e.handler p then (failed element_stopped, p) else elim (find_key uid p.lrumap) [
      | none ↦ (panicked, p)
      | some n ↦ (got e false, record p { lru = move_to_front n p.lru })
    ]

module _ (files : Files) where
  -- PathAndFile
  unfoldable pub path_and_file : Text → List Text → Text × Text
  unfolding two_level_path
  path_and_file uid base =
      (codes "/" ++ files.join (base ++ two_level_path uid), uid ++ codes ".db")

  -- The branch of an element that is not in the pool
  unfoldable pub create_element : Text → Pool → Got × Pool
  unfolding open_element make_room path_and_file
  create_element uid p =
      let (storage_dir, filename) = path_and_file uid p.base in
      if memory_only p.base
      then open_element (files.open_db (codes ":memory:")) uid (make_room p)
      else if files.make_dir storage_dir
      then open_element (files.open_db (storage_dir ++ codes "/" ++ filename)) uid (make_room p)
      else (failed no_data_dir, p)

  -- getElement
  unfoldable pub get_element : Text → Pool → Got × Pool
  unfolding create_element use_element
  get_element uid p = elim (find_key uid p.elements) [
    | none ↦ create_element uid p
    | some e ↦ use_element e uid p
  ]
