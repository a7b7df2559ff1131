-- ===== src/Tests/Web.antt =====
-- The web layer on concrete requests and pools.
use go_syncstorage.Prelude.{
  ℕ, suc, ◌-◌, ◌≤◌, ◌≡◌, ◌≢◌, ◌↔◌, refl, true, false, none, some, List, [], ◌∷◌, arith, length,
  if◌then◌else◌,
}
use go_syncstorage.Prelude.Int.{ℤ, pos}
use go_syncstorage.Prelude.Text.{Text, codes, text_eq}
use go_syncstorage.Strconv.{itoa, parse_int}
use go_syncstorage.Web.Http.{Request, Floats}
use go_syncstorage.Web.NotModified.{sent_not_modified, Proceeds, sent_not_modified_lem}
use go_syncstorage.Web.Pool.{
  two_level_path, path_and_file, Element, Pool, Files, Got, got, new_handler_pool, get_element,
  fresh, stop_http, forget, create_element, open_element, insert_element, make_room,
}
use go_syncstorage.Web.Pool.Recent.{find_uid}
use go_syncstorage.Web.Pool.Invariant.{IsValid, new_handler_pool-IsValid}
use go_syncstorage.Web.Pool.Eviction.{kept}
use go_syncstorage.Web.Pool.Get.{get_element-absent, get_element-IsValid}
use go_syncstorage.Web.Pool.Race.{BothListed, clean, in_turn, get_element-race}
use go_syncstorage.Web.Pool.Steps.{starting, ended, db_file, step, step_on}
use go_syncstorage.Web.PoolHandler.{
  PoolHandler, attempts, conflict_attempts, passed_on, crashed, serve_http,
}
use go_syncstorage.Web.PoolHandler.Retry.{AllFit, serve_http-AllFit, attempts-closing}

-- Whole seconds in place of floating point
abbrev pub whole : Floats
whole = record {
  Float = ℤ;
  parse_float = parse_int;
  of_int = λ n. n;
  to_int = λ n. n;
  times = λ a b. a;
  over = λ a b. a;
  print = itoa;
}

abbrev pub since_5 : Request
since_5 = record {
  header = λ name. if text_eq name (codes "X-If-Modified-Since") then codes "5" else [];
  query = λ key. none;
}

sent_not_modified_lem_example :
    (sent_not_modified whole since_5 (pos 7) ≡ none)
    ↔ Proceeds whole
        (since_5.header (codes "X-If-Modified-Since"))
        (since_5.header (codes "X-If-Unmodified-Since"))
        (pos 7)
sent_not_modified_lem_example = sent_not_modified_lem whole since_5 (pos 7)

abbrev disk : Files
disk = record { join = λ parts. codes "data"; make_dir = λ dir. true; open_db = λ file. true }

-- A pool of size 1, empty, and after a request of user 1
abbrev pool_0 : Pool
pool_0 = new_handler_pool (codes "data" ∷ []) 1

abbrev pool_1 : Pool
pool_1 = (get_element disk (codes "1") pool_0).1

abbrev first : Element
first = record { uid = codes "1"; handler = 0 }

pool_0-IsValid : IsValid pool_0
pool_0-IsValid = new_handler_pool-IsValid (codes "data" ∷ []) 1

few_0 : length pool_0.lru ≤ suc pool_0.max_pool_size
unfolding new_handler_pool
few_0 = omega arith

get_element-IsValid_example :
    IsValid pool_1
    × (length pool_1.lru ≤ suc pool_1.max_pool_size)
    × ((get_element disk (codes "1") pool_0).0 ≢ Got.panicked)
get_element-IsValid_example = get_element-IsValid disk (codes "1") pool_0 pool_0-IsValid few_0

nobody_0 : find_uid (codes "1") pool_0.lru ≡ none
unfolding new_handler_pool find_uid
nobody_0 = refl

get_element-absent_example :
    ((get_element disk (codes "1") pool_0).0 ≡ got (fresh (codes "1") pool_0) true)
    × (pool_1.lru ≡ fresh (codes "1") pool_0 ∷ kept pool_0)
get_element-absent_example =
    get_element-absent disk (codes "1") pool_0 pool_0-IsValid nobody_0 (λ dir. refl) (λ file. refl)

pool_1-IsValid : IsValid pool_1
pool_1-IsValid = (get_element-IsValid disk (codes "1") pool_0 pool_0-IsValid few_0).0

first_1 : find_uid (codes "1") pool_1.lru ≡ some first
unfolding new_handler_pool get_element create_element open_element insert_element make_room find_uid
    text_eq
first_1 = refl

-- A pool over its size of 1
abbrev pool_2 : Pool
pool_2 = (get_element disk (codes "2") pool_1).1

pool_2-IsValid : IsValid pool_2
pool_2-IsValid =
    (get_element-IsValid disk (codes "2") pool_1 pool_1-IsValid
      (get_element-IsValid disk (codes "1") pool_0 pool_0-IsValid few_0).1).0

get_element-race_example :
    ((q : Pool)
      → step_on disk (codes "3") (step_on disk (codes "3") (step disk (codes "3") starting q))
        ≡ ended (get_element disk (codes "3") q))
    × BothListed disk (codes "3") (clean (clean pool_2)) (in_turn disk (codes "3") pool_2)
unfolding new_handler_pool get_element create_element open_element insert_element make_room text_eq
    db_file path_and_file two_level_path
get_element-race_example =
    get_element-race disk (codes "3") pool_2 _ pool_2-IsValid refl refl refl (omega arith)

-- A sum that is always zero, and nobody else
abbrev sha1 : Text → List ℕ
sha1 s = []

abbrev nobody_else : ℕ → Pool → Pool
nobody_else r p = p

abbrev handler : PoolHandler
handler = record { stopped = false; retry_after = []; pools = pool_0 ∷ [] }

serve_http-AllFit_example :
    let r = serve_http sha1 disk nobody_else (some (codes "1")) handler in
    AllFit r.1.pools × (r.0 ≢ crashed)
serve_http-AllFit_example =
    serve_http-AllFit sha1 disk nobody_else (λ r q f. f) (some (codes "1")) handler
      ((pool_0-IsValid, few_0), tt) (omega arith) (omega arith)

-- The handler of `first` is taken out during the sleep.
abbrev removing : ℕ → Pool → Pool
removing r p = forget first p

attempts-closing_example :
    (attempts sha1 disk removing (conflict_attempts - 1) (codes "1") (stop_http first pool_1)).0
    ≡ passed_on (fresh (codes "1") pool_1) true
attempts-closing_example =
    attempts-closing sha1 disk removing first pool_1 pool_1-IsValid first_1 refl (λ dir. refl)
      (λ file. refl)
