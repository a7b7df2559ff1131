-- ===== src/Tests/User.antt =====
-- A user's handler with concrete requests.
use go_syncstorage.Prelude.{ℕ, ◌<◌, ◌≡◌, refl, false, none, some, [], arith}
use go_syncstorage.Prelude.Text.{codes, text_eq}
use go_syncstorage.Storage.Checks.{collection_name_ok, now_of}
use go_syncstorage.Web.UserHandler.{
  UserHandler, routed, is_change, serve_http, getcid, change_start, to_sleep,
}
use go_syncstorage.Web.UserHandler.Unique.{reading, serve_http-later}
use go_syncstorage.Web.Deletes.{h_bso_delete}
use go_syncstorage.Web.Deletes.Unchanged.{of_bso, delete_route, delete_route_lem}
use go_syncstorage.Web.Deletes.{extract_bso_id}
use go_syncstorage.Storage.Checks.{bso_id_ok}
use go_syncstorage.Storage.Driver.{attempt, now, query}
use go_syncstorage.Storage.Bso.{get_bso, find_row}
use go_syncstorage.Storage.Collections.{get_collection_id, lookup_id, common_ids}
use go_syncstorage.Storage.Data.{new_tables}
use go_syncstorage.Tests.Data.{start}
use go_syncstorage.Tests.Web.{whole, since_5}

-- A new handler, whose user's database was last changed 2 ms before
abbrev new_handler : UserHandler
new_handler = record { stopped = false; retry_after = []; last_change = none }

serve_http-later_example :
    let (r, h') = serve_http (codes "PUT") 5000000 300 (reading 1000 2000) new_handler in
    let (r', h'') = serve_http (codes "POST") 15003500 0 (reading 0 0) h' in
    (x : ℕ) × (y : ℕ) × (r ≡ routed x) × (r' ≡ routed y) × (now_of 3000000 < x) × (x < y)
unfolding is_change text_eq change_start to_sleep
serve_http-later_example =
    serve_http-later (codes "PUT") (codes "POST") 5000000 300 1000 2000 15003500 0 0 0 3000000
      new_handler refl refl refl (omega arith) (omega arith)

-- There is no such BSO, and no such collection.
delete_route_lem_example :
    (delete_route whole since_5 (of_bso (some (codes "aBcD"))) (codes "bookmarks") start).1.tables
    ≡ start.tables
unfolding h_bso_delete extract_bso_id bso_id_ok getcid collection_name_ok attempt get_collection_id
    lookup_id common_ids text_eq get_bso now query find_row new_tables
delete_route_lem_example =
    delete_route_lem whole since_5 (of_bso (some (codes "aBcD"))) (codes "bookmarks") start (λ x. x)
