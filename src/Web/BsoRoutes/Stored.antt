-- ===== src/Web/BsoRoutes/Stored.antt =====
-- web/syncUserHandler.go: hBsoPUT and the BSOs of the user.
use go_syncstorage.Prelude.{ℕ, ◌≡◌, refl, true, Option, none, some, List}
use go_syncstorage.Prelude.Int.{ℤ}
use go_syncstorage.Prelude.Text.{Text, codes}
use go_syncstorage.Storage.Data.{BsoRow, PutBsoInput, Result, ok, err}
use go_syncstorage.Storage.Driver.{World}
use go_syncstorage.Storage.Driver.Keeps.{IsAtomic, IsAtomic-transaction}
use go_syncstorage.Storage.Bso.{put_bso}
use go_syncstorage.Web.Http.{Request, Floats}
use go_syncstorage.Web.Accept.{Accepted, accept, not_acceptable}
use go_syncstorage.Web.Body.{Json, Body, Parsed, parsed, unparsed, too_large, in_milliseconds}
use go_syncstorage.Web.BsoRoutes.{
  Config, with_bso_id, when_accepted, is_body_type, put_done, put_parsed, put_body, put_unless_sent,
  put_in, put_accepted, h_bso_put,
}
use go_syncstorage.Web.Deletes.{extract_bso_id}
use go_syncstorage.Web.Guarded.{
  IsSuccess, Guards, Guards-reply, Guards-call, Guards-atomic, Guards-unless_sent, Guards-if,
  HasBsos, Keeps-reads, getcid-HasBsos,
}
use go_syncstorage.Web.ReadOnly.{get_bso_modified-IsReadOnly}
use go_syncstorage.Web.Reply.{failed, is_not_found}
use go_syncstorage.Web.UserHandler.{getcid}

put_bso-IsAtomic :
    (c : ℕ) (i : Text) (p : Option Text) (s t : Option ℤ) → IsAtomic (put_bso c i p s t)
unfolding put_bso
put_bso-IsAtomic c i p s t = IsAtomic-transaction _

module _ (f : Floats) (media_type : Text → Text) (j : Json) (config : Config) (r : Request)
    (b : List BsoRow) where
  put_parsed-Guards :
      (c : ℕ) (i : Text) (p : Parsed PutBsoInput)
      → Guards (HasBsos b) (put_parsed f media_type j config r c i p)
  put_parsed-Guards c i (unparsed e) = Guards-reply _ _
  put_parsed-Guards c i (parsed d) =
      Guards-if _ (too_large config.max_record_payload_bytes d.payload) _ _ (Guards-reply _ _) (
        Guards-atomic _ (put_bso c i d.payload d.sort_index (in_milliseconds d.ttl)) put_done
          (put_bso-IsAtomic c i d.payload d.sort_index (in_milliseconds d.ttl))
          (λ e. Guards-reply _ (failed 400 e)) (λ m w. tt))

  put_body-Guards :
      (c : ℕ) (i : Text) (body : Body)
      → Guards (HasBsos b) (put_body f media_type j config r c i body)
  put_body-Guards c i body =
      Guards-if _ body.broken _ _ (Guards-reply _ _) (put_parsed-Guards c i _)

  put_unless_sent-Guards :
      (c : ℕ) (i : Text) (body : Body) (m : Result ℕ)
      → Guards (HasBsos b) (put_unless_sent f media_type j config r c i body m)
  put_unless_sent-Guards c i body (ok m) = Guards-unless_sent _ _ _ (put_body-Guards c i body)
  put_unless_sent-Guards c i body (err e) =
      Guards-if _ (is_not_found e) _ _ (Guards-unless_sent _ _ _ (put_body-Guards c i body))
        (Guards-reply _ _)

  put_in-Guards :
      (i : Text) (body : Body) (c : Result ℕ)
      → Guards (HasBsos b) (put_in f media_type j config r i body c)
  put_in-Guards i body (ok c) =
      Guards-call _ _ _ (Keeps-reads _ _ (get_bso_modified-IsReadOnly c i))
        (put_unless_sent-Guards c i body)
  put_in-Guards i body (err e) = Guards-reply _ _

  with_id-Guards :
      (collection : Text) (body : Body) (id : Option Text)
      → Guards (HasBsos b) (
          with_bso_id id λ i. λ w.
            put_in f media_type j config r i body
              ((getcid collection true w).0)
              ((getcid collection true w).1))
  with_id-Guards collection body none = Guards-reply _ _
  with_id-Guards collection body (some i) =
      Guards-call _ _ _ (getcid-HasBsos b collection true) (put_in-Guards i body)

  accepted-Guards :
      (collection : Text) (id : Option Text) (body : Body) (a : Accepted)
      → Guards
          (HasBsos b)
          (when_accepted a λ header. put_accepted f media_type j config r collection id body)
  accepted-Guards collection id body (not_acceptable p) = Guards-reply _ _
  accepted-Guards collection id body (accept header) =
      Guards-if _ (is_body_type (media_type (r.header (codes "Content-Type")))) _ _
        (with_id-Guards collection body (extract_bso_id id)) (Guards-reply _ _)

module _ (f : Floats) (media_type : Text → Text) (j : Json) (config : Config) (r : Request) where
  -- A PUT of a BSO that is answered by anything but success, for whichever reason and wherever the
  -- driver failed, leaves the BSOs as they were.
  pub h_bso_put-refused :
      (collection : Text) (id : Option Text) (body : Body) (w : World)
      → ¬ (IsSuccess ((h_bso_put f media_type j config r collection id body w).0))
      → (h_bso_put f media_type j config r collection id body w).1.tables.bso ≡ w.tables.bso
  unfolding h_bso_put
  h_bso_put-refused collection id body w n =
      (accepted-Guards f media_type j config r w.tables.bso collection id body _).at w refl n
