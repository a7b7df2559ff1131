-- ===== src/Web/ReadOnly.antt =====
-- The storage's operations that the reading routes call, and handlers that write no table.
use go_syncstorage.Prelude.{
  ℕ, ◌≡◌, refl, ◌∙◌, Bool, true, false, Option, none, some, List, [], ◌∷◌, if◌then◌else◌,
}
use go_syncstorage.Prelude.Int.{ℤ}
use go_syncstorage.Prelude.Text.{Text}
use go_syncstorage.Storage.Data.{Result, ok, err, SortType}
use go_syncstorage.Storage.Driver.{World, M}
use go_syncstorage.Storage.Driver.ReadOnly.{IsReadOnly, read_rules}
use go_syncstorage.Storage.Keys.{last_modified, timestamp_of, or_not_a_number, get_key}
use go_syncstorage.Storage.Bso.{get_bso, get_bso_modified}
use go_syncstorage.Storage.Collections.{
  get_collection_id, select_collection_id, get_collection_modified, or_else,
}
use go_syncstorage.Storage.Search.{get_bsos}
use go_syncstorage.Storage.Info.{info_collections, info_collection_usage, info_collection_counts}
use go_syncstorage.Storage.Batch.{batch_exists, batch_load}
use go_syncstorage.Web.Http.{Problem}
use go_syncstorage.Web.Reply.{Reply, Handler, reply, call, unless_sent, refused}
use go_syncstorage.Web.UserHandler.{getcid, or_make}

pub get_bso-IsReadOnly : (c : ℕ) (id : Text) → IsReadOnly (get_bso c id)
unfolding get_bso
get_bso-IsReadOnly c id = search read_rules

pub get_bso_modified-IsReadOnly : (c : ℕ) (id : Text) → IsReadOnly (get_bso_modified c id)
unfolding get_bso_modified
get_bso_modified-IsReadOnly c id = search read_rules

pub get_collection_modified-IsReadOnly : (c : ℕ) → IsReadOnly (get_collection_modified c)
unfolding get_collection_modified
get_collection_modified-IsReadOnly c = search read_rules

pub get_bsos-IsReadOnly :
    (c : ℕ) (ids : List Text) (older newer : ℤ) (sort : SortType) (limit offset : ℤ)
    → IsReadOnly (get_bsos c ids older newer sort limit offset)
unfolding get_bsos
get_bsos-IsReadOnly c ids older newer sort limit offset = search read_rules depth 10

pub info_collections-IsReadOnly : IsReadOnly info_collections
unfolding info_collections
info_collections-IsReadOnly = search read_rules

pub info_collection_usage-IsReadOnly : IsReadOnly info_collection_usage
unfolding info_collection_usage
info_collection_usage-IsReadOnly = search read_rules

pub info_collection_counts-IsReadOnly : IsReadOnly info_collection_counts
unfolding info_collection_counts
info_collection_counts-IsReadOnly = search read_rules

pub batch_exists-IsReadOnly : (id c : ℕ) → IsReadOnly (batch_exists id c)
unfolding batch_exists
batch_exists-IsReadOnly id c = search read_rules

pub batch_load-IsReadOnly : (id c : ℕ) → IsReadOnly (batch_load id c)
unfolding batch_load
batch_load-IsReadOnly id c = search read_rules

number-IsReadOnly : (o : Option ℤ) → IsReadOnly (or_not_a_number o)
number-IsReadOnly none = search read_rules
number-IsReadOnly (some n) = search read_rules

timestamp-IsReadOnly : (s : Text) → IsReadOnly (timestamp_of s)
timestamp-IsReadOnly [] = search read_rules
timestamp-IsReadOnly (c ∷ s) = number-IsReadOnly _

pub last_modified-IsReadOnly : IsReadOnly last_modified
unfolding last_modified get_key
last_modified-IsReadOnly = search (read_rules, timestamp-IsReadOnly)

or_else-IsReadOnly : (o : Option ℕ) (m : M ℕ) → IsReadOnly m → IsReadOnly (or_else o m)
or_else-IsReadOnly none m a = a
or_else-IsReadOnly (some id) m a = search read_rules

pub get_collection_id-IsReadOnly : (name : Text) → IsReadOnly (get_collection_id name)
unfolding get_collection_id select_collection_id
get_collection_id-IsReadOnly name = search (read_rules, or_else-IsReadOnly)

or_make-IsReadOnly : (name : Text) (r : Result ℕ) → IsReadOnly (or_make name false r)
or_make-IsReadOnly name (ok id) = record { at = λ w. refl }
or_make-IsReadOnly name (err e) = record { at = λ w. refl }

pub getcid-IsReadOnly : (name : Text) → IsReadOnly (getcid name false)
unfolding getcid
getcid-IsReadOnly name = search (read_rules, get_collection_id-IsReadOnly, or_make-IsReadOnly)

-- A handler after which the tables are as they were, whatever it answers
pub record Reads {B : Type 0} (h : Handler B) : Type 0 where
  pub at : (w : World) → (h w).1.tables ≡ w.tables

module _ {B : Type 0} where
  pub Reads-reply : (r : Reply B) → Reads (reply r)
  Reads-reply r = record { at = λ w. refl }

  pub Reads-call :
      {A : Type 0} (m : M A) (k : Result A → Handler B)
      → IsReadOnly m
      → ((r : Result A) → Reads (k r))
      → Reads (call m k)
  Reads-call m k o g = record { at = λ w. (g ((m w).0)).at ((m w).1) ∙ o.at w }

  pub Reads-unless_sent : (o : Option Problem) (k : Handler B) → Reads k → Reads (unless_sent o k)
  Reads-unless_sent none k g = g
  Reads-unless_sent (some p) k g = Reads-reply (refused p)

  pub Reads-if : (b : Bool) (h k : Handler B) → Reads h → Reads k → Reads (if b then h else k)
  Reads-if true h k g f = g
  Reads-if false h k g f = f
