-- ===== src/Web/BsoRoutes/ReadBack.antt =====
-- web/syncUserHandler.go: hBsoPUT that succeeded, and the BSO that GetBSO reads after it.
use go_syncstorage.Prelude.{
  ℕ, ◌≡◌, refl, true, false, Option, none, some, List, if◌then◌else◌, inl, inr, arith, Bool-cases,
}
use go_syncstorage.Prelude.Text.{Text, codes}
use go_syncstorage.Storage.Data.{BsoRow, PutBsoInput, Result, ok, err}
use go_syncstorage.Storage.Driver.{World, M}
use go_syncstorage.Storage.Driver.Keeps.{Keeps}
use go_syncstorage.Storage.Driver.Reliable.{IsReliable, time_of}
use go_syncstorage.Storage.Driver.Steady.{IsSteady, IsSteady-IsReliable}
use go_syncstorage.Storage.Bso.{matches, find_row, put_bso, get_bso, get_bso_modified}
use go_syncstorage.Storage.Bso.Put.{merged}
use go_syncstorage.Storage.Bso.PutGet.{while_live, get_bso-put_bso}
use go_syncstorage.Storage.Operation.Writes.{IsValid}
use go_syncstorage.Storage.Operation.Methods.{create_collection-IsValid}
use go_syncstorage.Web.Http.{Request, Problem, Floats}
use go_syncstorage.Web.Accept.{Accepted, accept, not_acceptable, accept_header_ok}
use go_syncstorage.Web.Body.{
  Json, Body, Parsed, parsed, unparsed, parse_into_bso, too_large, in_milliseconds,
}
use go_syncstorage.Web.BsoRoutes.{
  Config, with_bso_id, when_accepted, is_body_type, put_done, put_parsed, put_body, put_unless_sent,
  put_in, put_accepted, h_bso_put,
}
use go_syncstorage.Web.Deletes.{extract_bso_id}
use go_syncstorage.Web.Guarded.{HasBsos, Keeps-reads, getcid-HasBsos, getcid-Keeps}
use go_syncstorage.Web.ReadOnly.{get_bso_modified-IsReadOnly}
use go_syncstorage.Web.Reply.{unless_sent, call, answered, is_not_found}
use go_syncstorage.Web.UserHandler.{getcid}
use go_syncstorage.Web.BsoRoutes.Steps.{
  put_bso-accepted, getcid-IsSteady, get_bso_modified-IsSteady,
}

-- Where GetBSO stands in a world after a PUT, answered with `m`, of the BSO `d`
abbrev pub ReadsBack : List BsoRow → ℕ → Text → PutBsoInput → ℕ → World → Type 0
ReadsBack b c i d m w =
    (get_bso c i w).0
    ≡ while_live (time_of w) (
        some
          (merged c i m d.payload d.sort_index (in_milliseconds d.ttl) (find_row (matches c i) b)))

-- A world that a PUT may start from
record IsReady (b : List BsoRow) (w : World) : Type 0 where
  reliable : IsReliable w
  valid : IsValid w.tables
  rows : w.tables.bso ≡ b

module _ (f : Floats) (media_type : Text → Text) (j : Json) (config : Config) (r : Request)
    (b : List BsoRow) where
  abbrev Wrote : ℕ → Text → Parsed PutBsoInput → ℕ → World → Type 0
  Wrote c i p m w =
      (d : PutBsoInput) × (p ≡ parsed d)
      × (too_large config.max_record_payload_bytes d.payload ≡ false)
      × ReadsBack b c i d m w

  put_done-answered :
      (o : Result ℕ) (w : World) (m : ℕ)
      → (put_done o w).0 ≡ answered m
      → (o ≡ ok m) × ((put_done o w).1 ≡ w)
  put_done-answered (ok n) w m e = (cc, refl)
  put_done-answered (err x) w m e = absurd (cc)

  reads_back :
      (c : ℕ) (i : Text) (d : PutBsoInput) (w : World) (m : ℕ)
      → IsReady b w
      → (call (put_bso c i d.payload d.sort_index (in_milliseconds d.ttl)) put_done w).0
        ≡ answered m
      → ReadsBack b c i d m
          (call (put_bso c i d.payload d.sort_index (in_milliseconds d.ttl)) put_done w).1
  reads_back c i d w m ready e =
      let ttl = in_milliseconds d.ttl in
      let w' = (put_bso c i d.payload d.sort_index ttl w).1 in
      let (returned, same) =
        put_done-answered ((put_bso c i d.payload d.sort_index ttl w).0) w' m e in
      let (accepted, time) =
        put_bso-accepted c i d.payload d.sort_index ttl m w ready.reliable returned in
      rw (same, time, ← ready.rows)
        (get_bso-put_bso c i d.payload d.sort_index ttl w ready.reliable ready.valid accepted)

  put_parsed-answered :
      (c : ℕ) (i : Text) (p : Parsed PutBsoInput) (w : World) (m : ℕ)
      → IsReady b w
      → (put_parsed f media_type j config r c i p w).0 ≡ answered m
      → Wrote c i p m (put_parsed f media_type j config r c i p w).1
  put_parsed-answered c i (unparsed x) w m ready e = absurd (cc)
  put_parsed-answered c i (parsed d) w m ready e =
      elim (Bool-cases (too_large config.max_record_payload_bytes d.payload)) [
        | inl big ↦ absurd (ground arith)
        | inr fits ↦ (
          d,
          refl,
          fits,
          rw (fits, if◌then◌else◌) (reads_back c i d w m ready (rw (fits, if◌then◌else◌) at e)),
        )
      ]

  put_body-answered :
      (c : ℕ) (i : Text) (body : Body) (w : World) (m : ℕ)
      → IsReady b w
      → (put_body f media_type j config r c i body w).0 ≡ answered m
      → Wrote c i (parse_into_bso j body.received) m (put_body f media_type j config r c i body w).1
  put_body-answered c i body w m ready e = elim (Bool-cases body.broken) [
    | inl broken ↦ absurd (ground arith)
    | inr whole ↦
        rw (whole, if◌then◌else◌)
          (put_parsed-answered c i (parse_into_bso j body.received) w m ready
            (rw (whole, if◌then◌else◌) at e))
  ]

  unless_sent-answered :
      (o : Option Problem) (c : ℕ) (i : Text) (body : Body) (w : World) (m : ℕ)
      → IsReady b w
      → (unless_sent o (put_body f media_type j config r c i body) w).0 ≡ answered m
      → Wrote c i
          (parse_into_bso j body.received)
          m
          (unless_sent o (put_body f media_type j config r c i body) w).1
  unless_sent-answered none c i body w m ready e = put_body-answered c i body w m ready e
  unless_sent-answered (some p) c i body w m ready e = absurd (cc)

  put_unless_sent-answered :
      (c : ℕ) (i : Text) (body : Body) (o : Result ℕ) (w : World) (m : ℕ)
      → IsReady b w
      → (put_unless_sent f media_type j config r c i body o w).0 ≡ answered m
      → Wrote c i
          (parse_into_bso j body.received)
          m
          (put_unless_sent f media_type j config r c i body o w).1
  put_unless_sent-answered c i body (ok n) w m ready e = unless_sent-answered _ c i body w m ready e
  put_unless_sent-answered c i body (err x) w m ready e = elim (Bool-cases (is_not_found x)) [
    | inl missing ↦
        rw (missing, if◌then◌else◌)
          (unless_sent-answered _ c i body w m ready (rw (missing, if◌then◌else◌) at e))
    | inr other ↦ absurd (ground arith)
  ]

  IsReady-behind :
      {A : Type 0} (o : M A) (w : World)
      → IsSteady o
      → Keeps IsValid o
      → Keeps (HasBsos b) o
      → IsReady b w
      → IsReady b (o w).1
  IsReady-behind o w s v k ready = record {
    reliable = IsSteady-IsReliable o w s ready.reliable;
    valid = v.at w ready.valid;
    rows = k.at w ready.rows;
  }

  put_in-answered :
      (i : Text) (body : Body) (o : Result ℕ) (w : World) (m : ℕ)
      → IsReady b w
      → (put_in f media_type j config r i body o w).0 ≡ answered m
      → (c : ℕ) × (o ≡ ok c)
        × Wrote c i (parse_into_bso j body.received) m (put_in f media_type j config r i body o w).1
  put_in-answered i body (err x) w m ready e = absurd (cc)
  put_in-answered i body (ok c) w m ready e =
      let reads = get_bso_modified-IsReadOnly c i in
      let ready' =
        IsReady-behind (get_bso_modified c i) w (get_bso_modified-IsSteady c i)
          (Keeps-reads _ _ reads) (Keeps-reads _ _ reads) ready in
      (
        c,
        refl,
        put_unless_sent-answered c i body ((get_bso_modified c i w).0) ((get_bso_modified c i w).1)
            m ready' e,
      )

  with_id-answered :
      (collection : Text) (body : Body) (id : Option Text) (w : World) (m : ℕ)
      → IsReady b w
      → (with_bso_id id
          (λ i. call (getcid collection true) (put_in f media_type j config r i body))
          w).0
        ≡ answered m
      → (i : Text) × (c : ℕ) × (id ≡ some i)
        × ((getcid collection true w).0 ≡ ok c)
        × Wrote c i
            (parse_into_bso j body.received)
            m
            (with_bso_id id
              (λ i. call (getcid collection true) (put_in f media_type j config r i body))
              w).1
  with_id-answered collection body none w m ready e = absurd (cc)
  with_id-answered collection body (some i) w m ready e =
      let ready' =
        IsReady-behind (getcid collection true) w (getcid-IsSteady collection true)
          (getcid-Keeps _ collection (create_collection-IsValid collection) true)
          (getcid-HasBsos b collection true) ready in
      let (c, found, wrote) =
        put_in-answered i body ((getcid collection true w).0) ((getcid collection true w).1) m
          ready' e in
      (i, c, refl, found, wrote)

  accepted-answered :
      (collection : Text) (id : Option Text) (body : Body) (a : Accepted) (w : World) (m : ℕ)
      → IsReady b w
      → (when_accepted a (λ h. put_accepted f media_type j config r collection id body) w).0
        ≡ answered m
      → (i : Text) × (c : ℕ) × (extract_bso_id id ≡ some i)
        × ((getcid collection true w).0 ≡ ok c)
        × Wrote c i
            (parse_into_bso j body.received)
            m
            (when_accepted a (λ h. put_accepted f media_type j config r collection id body) w).1
  accepted-answered collection id body (not_acceptable p) w m ready e = absurd (cc)
  accepted-answered collection id body (accept header) w m ready e =
      elim (Bool-cases (is_body_type (media_type (r.header (codes "Content-Type"))))) [
        | inl good ↦
            rw (good, if◌then◌else◌)
              (with_id-answered collection body (extract_bso_id id) w m ready
                (rw (good, if◌then◌else◌) at e))
        | inr other ↦ absurd (ground arith)
      ]

module _ (f : Floats) (media_type : Text → Text) (j : Json) (config : Config) (r : Request) where
  -- A PUT that is answered with success, in a well-formed database and while the driver works, had a
  -- valid id and a body that is a BSO with a payload within the limit, in a collection that getcid
  -- found or made. GetBSO of that collection and id then returns, up to the time at which the BSO
  -- expires, the values of the body over what was there, or over the defaults, with the TTL of the
  -- body in milliseconds. Its modification time is the one answered, unless the BSO was there and the
  -- body gave neither a payload nor a sort index: then it keeps the time that it had.
  pub h_bso_put_lem :
      (collection : Text) (id : Option Text) (body : Body) (w : World) (m : ℕ)
      → IsReliable w
      → IsValid w.tables
      → (h_bso_put f media_type j config r collection id body w).0 ≡ answered m
      → (i : Text) × (c : ℕ) × (d : PutBsoInput) × (extract_bso_id id ≡ some i)
        × ((getcid collection true w).0 ≡ ok c)
        × (parse_into_bso j body.received ≡ parsed d)
        × (too_large config.max_record_payload_bytes d.payload ≡ false)
        × ReadsBack w.tables.bso c i d m (h_bso_put f media_type j config r collection id body w).1
  unfolding h_bso_put
  h_bso_put_lem collection id body w m h v e =
      let ready : IsReady w.tables.bso w = record { reliable = h; valid = v; rows = refl } in
      let (i, c, named, found, (d, p, fits, back)) =
        accepted-answered f media_type j config r w.tables.bso collection id body
          (accept_header_ok media_type r) w m ready e in
      (i, c, d, named, found, p, fits, back)
