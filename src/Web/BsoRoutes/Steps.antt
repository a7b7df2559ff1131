-- ===== src/Web/BsoRoutes/Steps.antt =====
-- syncstorage/db.go, web/syncUserHandler.go: the calls of hBsoPUT while the driver works.
use go_syncstorage.Prelude.{
  ℕ, ◌≡◌, refl, Bool, true, false, Option, none, some, Option-cases, inl, inr, arith,
}
use go_syncstorage.Prelude.Int.{ℤ}
use go_syncstorage.Prelude.Text.{Text}
use go_syncstorage.Storage.Data.{Error, Result, ok, err, not_found}
use go_syncstorage.Storage.Driver.{World, M, now, transaction, finish}
use go_syncstorage.Storage.Driver.Reliable.{IsReliable, time_of}
use go_syncstorage.Storage.Driver.Steady.{IsSteady, steady_rules}
use go_syncstorage.Storage.Bso.{refusal, put_bso, put_bso_tx, get_bso_modified}
use go_syncstorage.Storage.Bso.Put.{put_bso-ok}
use go_syncstorage.Storage.Collections.{
  get_collection_id, create_collection, select_collection_id, or_else,
}
use go_syncstorage.Web.UserHandler.{getcid, or_make}

put_bso-refused :
    (c : ℕ) (i : Text) (p : Option Text) (s t : Option ℤ) (e : Error) (w : World)
    → IsReliable w
    → refusal i p s t ≡ some e
    → (put_bso c i p s t w).0 ≡ err e
unfolding put_bso transaction finish now put_bso_tx
put_bso-refused c i p s t e w h refused = rw (h w.calls, refused) refl

pub put_bso-accepted :
    (c : ℕ) (i : Text) (p : Option Text) (s t : Option ℤ) (m : ℕ) (w : World)
    → IsReliable w
    → (put_bso c i p s t w).0 ≡ ok m
    → (refusal i p s t ≡ none) × (m ≡ time_of w)
put_bso-accepted c i p s t m w h e = elim (Option-cases (refusal i p s t)) [
  | inl accepted ↦ (accepted, ground (arith, put_bso-ok c i p s t w h accepted))
  | inr (x, refused) ↦ absurd (ground (arith, put_bso-refused c i p s t x w h refused))
]

or_else-IsSteady : (o : Option ℕ) (m : M ℕ) → IsSteady m → IsSteady (or_else o m)
or_else-IsSteady none m a = a
or_else-IsSteady (some id) m a = search steady_rules

create_collection-IsSteady : (name : Text) → IsSteady (create_collection name)
unfolding create_collection
create_collection-IsSteady name = search steady_rules depth 8

get_collection_id-IsSteady : (name : Text) → IsSteady (get_collection_id name)
unfolding get_collection_id select_collection_id
get_collection_id-IsSteady name = search (steady_rules, or_else-IsSteady)

or_make-IsSteady : (name : Text) (make : Bool) (r : Result ℕ) → IsSteady (or_make name make r)
or_make-IsSteady name make (ok id) = search steady_rules
or_make-IsSteady name true (err not_found) = create_collection-IsSteady name
or_make-IsSteady name true (err e) = search steady_rules
or_make-IsSteady name false (err e) = search steady_rules

pub getcid-IsSteady : (name : Text) (make : Bool) → IsSteady (getcid name make)
unfolding getcid
getcid-IsSteady name make = search (steady_rules, get_collection_id-IsSteady, or_make-IsSteady)

pub get_bso_modified-IsSteady : (c : ℕ) (id : Text) → IsSteady (get_bso_modified c id)
unfolding get_bso_modified
get_bso_modified-IsSteady c id = search steady_rules
