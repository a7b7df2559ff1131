-- ===== src/Tests/Cached.antt =====
-- The cache in front of a small service, with a store that loses nothing.
use mathlib.Core.Path.{subst}
use go_syncstorage.Prelude.{
  ◌≡◌, ◌≢◌, refl, Option, inl, inr, Bool, true, false, none, some, List, [], ◌∷◌, if◌then◌else◌,
}
use go_syncstorage.Prelude.Text.{Text, codes, text_eq, text_eq_refl, text_eq_iff, text_eq-swap}
use go_syncstorage.Prelude.Assoc.{find_key, put_key, find_key-remove_key}
use go_syncstorage.Strconv.{is_digit}
use go_syncstorage.Web.UserHandler.{is_change}
use go_syncstorage.Web.Cache.{
  info_collection, CacheStore, Next, Response, written, Cached, cache_serve_http, entry_of, copied,
  matches_route,
}
use go_syncstorage.Web.Cache.Told.{Exchange, logged, last_told}
use go_syncstorage.Web.Cache.Coherent.{IsStore, IsCoherent, cache_serve_http_lem}
use go_syncstorage.Web.Cache.Hit.{told_again, cache_serve_http-hit}
use go_syncstorage.Tests.Json.{put_request}
use go_syncstorage.Tests.Web.{whole}

abbrev table : CacheStore
table = record { Cache = List (Text × Text); get = find_key; set = put_key }

found_own : (k v : Text) (c : List (Text × Text)) → find_key k (put_key k v c) ≡ some v
found_own k v c = rw (text_eq_refl k, if◌then◌else◌) refl

found_other :
    (k j v : Text) (c : List (Text × Text))
    → text_eq k j ≡ false
    → find_key j (put_key k v c) ≡ find_key j c
found_other k j v c e =
    rw (text_eq-swap k j e, if◌then◌else◌, find_key-remove_key k j c, text_eq-swap k j e) refl

apart : (s t : Text) → text_eq s t ≡ false → s ≢ t
apart s t e same = absurd (cc ((text_eq_iff s t).1 same))

table-IsStore : IsStore table
table-IsStore = record {
  own = λ k v c. inr (found_own k v c);
  other = λ k j v c e. inr (found_other k j v c e);
}

-- The time of a user, 1500000000.02 behind the last change and 1500000000.01 before the first
abbrev time_or : Option Text → Text
time_or none = codes "1500000000.01"
time_or (some t) = t

abbrev time_in : Text → List (Text × Text) → Text
time_in uid s = time_or (find_key uid s)

abbrev served : Bool → Text → List (Text × Text) → Response × List (Text × Text)
served true uid s = (written 200 [] [], put_key uid (codes "1500000000.02") s)
served false uid s = (written 200 (time_in uid s) (time_in uid s), s)

abbrev service : Next
service = record {
  State = List (Text × Text);
  serve = λ uid method path r s. served (is_change method) uid s;
}

abbrev empty : Cached whole table (logged service)
empty = ([], ([], []))

empty-IsCoherent : IsCoherent whole table service table-IsStore empty
empty-IsCoherent = record { fits = λ user proper. inl refl }

abbrev get : Text
get = codes "GET"

abbrev path : Text
path = codes "/1.5/1/info/collections"

abbrev filled : Cached whole table (logged service)
filled =
    (cache_serve_http whole table (logged service) (some (codes "1")) get path put_request empty).1

cache_serve_http_lem_example : IsCoherent whole table service table-IsStore filled
cache_serve_http_lem_example =
    cache_serve_http_lem whole table service table-IsStore (some (codes "1")) get path put_request
      empty empty-IsCoherent

abbrev first_time : Text
first_time = codes "1500000000.01"

-- What the first read of the user 1 leaves
abbrev log : List Exchange
log =
    (record {
      uid = codes "1";
      method = get;
      path = path;
      answer = written 200 first_time first_time;
    })
    ∷ []

abbrev entry : List (Text × Text)
entry = (codes "1", entry_of first_time first_time) ∷ []

filled_is : filled ≡ (entry, ([], log))
unfolding cache_serve_http info_collection matches_route text_eq is_change is_digit
filled_is = refl

entry-IsCoherent : IsCoherent whole table service table-IsStore (entry, ([], log))
entry-IsCoherent =
    subst (λ w. IsCoherent whole table service table-IsStore w) filled_is
      cache_serve_http_lem_example

cache_serve_http-hit_example :
    (m : Text) × (b : Text) × (last_told (codes "1") log ≡ some (m, b))
    × (cache_serve_http whole table
          (logged service)
          (some (codes "1"))
          get
          path
          put_request
          (entry, ([], log))
        ≡ (told_again whole table service table-IsStore put_request m b, (entry, ([], log))))
unfolding text_eq matches_route entry_of copied is_digit
cache_serve_http-hit_example =
    cache_serve_http-hit whole table service table-IsStore (codes "1") get path put_request entry []
      log b'1' (codes "500000000.011500000000.01") entry-IsCoherent refl refl refl
