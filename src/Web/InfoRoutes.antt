-- ===== src/Web/InfoRoutes.antt =====
-- web/syncUserHandler.go: hInfoQuota, hInfoCollections, hInfoCollectionUsage, hInfoCollectionCounts
-- and hInfoConfiguration.
pub mod Unchanged
use go_syncstorage.Prelude.{ℕ, ◌+◌, List, [], ◌∷◌}
use go_syncstorage.Prelude.Int.{ℤ, pos}
use go_syncstorage.Prelude.Text.{Text}
use go_syncstorage.Storage.Data.{Result, ok, err}
use go_syncstorage.Storage.Driver.{M}
use go_syncstorage.Storage.Keys.{last_modified}
use go_syncstorage.Storage.Info.{info_collections, info_collection_usage, info_collection_counts}
use go_syncstorage.Web.Http.{Request, Floats}
use go_syncstorage.Web.Accept.{accept_header_ok, Format, format_of}
use go_syncstorage.Web.BsoRoutes.{Config, when_accepted}
use go_syncstorage.Web.NotModified.{sent_not_modified}
use go_syncstorage.Web.Reply.{answered, Handler, reply, call, internal_error, unless_sent}

-- What is told, with the time of X-Last-Modified
pub record Info (A : Type 0) : Type 0 where
  pub modified : ℤ
  pub told : A

unfoldable pub sum_of : List (Text × ℕ) → ℕ
sum_of [] = 0
sum_of ((name, bytes) ∷ more) = bytes + sum_of more

-- The limits that hInfoConfiguration tells, in the order in which it writes them
abbrev pub told_limits : Config → List ℕ
told_limits c =
    c.max_post_records ∷ c.max_post_bytes ∷ c.max_total_records ∷ c.max_total_bytes
    ∷ c.max_request_bytes ∷ c.max_record_payload_bytes ∷ []

-- hInfoConfiguration
unfoldable pub h_info_configuration : Config → Handler (List ℕ)
h_info_configuration config = reply (answered (told_limits config))

module _ (f : Floats) (media_type : Text → Text) (r : Request) where
  -- Behind the results: the time, and the check of the request's condition
  abbrev pub told_modified : {A : Type 0} → A → Result ℤ → Handler (Info A)
  told_modified told (err e) = internal_error e
  told_modified told (ok modified) =
      unless_sent (sent_not_modified f r modified)
        (reply (answered (record { modified = modified; told = told })))

  -- The results first, and then the time
  abbrev pub with_results : {A B : Type 0} → (A → B) → Result A → Handler (Info B)
  with_results g (err e) = internal_error e
  with_results g (ok a) = call last_modified (told_modified (g a))

  -- hInfoQuota: the sum of the bytes of all collections, which it prints in kilobytes
  unfoldable pub h_info_quota : Handler (Info ℕ)
  unfolding sum_of
  h_info_quota = call info_collection_usage (with_results sum_of)

  -- hInfoCollections
  unfoldable pub h_info_collections : Handler (Info (List (Text × ℕ)))
  unfolding accept_header_ok
  h_info_collections =
      when_accepted (accept_header_ok media_type r)
        λ header. call info_collections (with_results (λ times. times))

  -- hInfoCollectionCounts, with the form that is accepted
  unfoldable pub h_info_collection_counts : Handler (Info (List (Text × ℕ) × Format))
  unfolding accept_header_ok format_of
  h_info_collection_counts =
      when_accepted (accept_header_ok media_type r)
        λ header. call info_collection_counts (with_results (λ counts. (counts, format_of header)))

  -- Bytes in kilobytes
  unfoldable pub in_kilobytes : List (Text × ℕ) → List (Text × f.Float)
  in_kilobytes [] = []
  in_kilobytes ((name, bytes) ∷ more) =
      (name, f.over (f.of_int (pos bytes)) (f.of_int (pos 1024))) ∷ in_kilobytes more

  abbrev pub usage_found :
      ℤ → Text → Result (List (Text × ℕ)) → Handler (Info (List (Text × f.Float) × Format))
  usage_found modified header (err e) = internal_error e
  usage_found modified header (ok usage) =
      reply
        (answered (record { modified = modified; told = (in_kilobytes usage, format_of header) }))

  -- Here the time is read first.
  abbrev pub usage_unless_sent : Text → Result ℤ → Handler (Info (List (Text × f.Float) × Format))
  usage_unless_sent header (err e) = internal_error e
  usage_unless_sent header (ok modified) =
      unless_sent (sent_not_modified f r modified)
        (call info_collection_usage (usage_found modified header))

  -- hInfoCollectionUsage
  unfoldable pub h_info_collection_usage : Handler (Info (List (Text × f.Float) × Format))
  unfolding accept_header_ok in_kilobytes format_of
  h_info_collection_usage =
      when_accepted (accept_header_ok media_type r)
        λ header. call last_modified (usage_unless_sent header)
