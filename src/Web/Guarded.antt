-- ===== src/Web/Guarded.antt =====
-- Handlers that keep a property of the tables: always, or unless they answer with success.
use go_syncstorage.Prelude.{
  ℕ, ◌≡◌, refl, Bool, true, false, Option, none, some, List, if◌then◌else◌, arith,
}
use go_syncstorage.Prelude.Text.{Text}
use go_syncstorage.Storage.Data.{Tables, BsoRow, Error, Result, ok, err, not_found}
use go_syncstorage.Storage.Driver.{World, M}
use go_syncstorage.Storage.Driver.Keeps.{
  Keeps, IsAtomic, Keeps-if, Keeps-bind, Keeps-attempt, Keeps-throw, Keeps-pure, Keeps-transaction,
  Keeps-exec, Keeps-now,
}
use go_syncstorage.Storage.Driver.ReadOnly.{IsReadOnly}
use go_syncstorage.Storage.Collections.{create_collection, insert_collection}
use go_syncstorage.Web.Http.{Problem}
use go_syncstorage.Web.ReadOnly.{get_collection_id-IsReadOnly}
use go_syncstorage.Web.Reply.{
  Reply, refused, failed, weave_error, answered, after, crashed, Handler, reply, call, unless_sent,
  going_on,
}
use go_syncstorage.Web.UserHandler.{getcid, or_make}

-- Is what was written, or what was written after a refusal, a success?
abbrev pub IsSuccess : {B : Type 0} → Reply B → Type 0
IsSuccess (answered b) = Unit
IsSuccess (after p r) = IsSuccess r
IsSuccess (refused p) = ⊥
IsSuccess (failed n e) = ⊥
IsSuccess (weave_error t) = ⊥
IsSuccess crashed = ⊥

-- `h` keeps `P`, whatever it answers
pub record Spares {B : Type 0} (P : Tables → Type 0) (h : Handler B) : Type 0 where
  pub at : (w : World) → P w.tables → P (h w).1.tables

-- `h` that answers without success keeps `P`
pub record Guards {B : Type 0} (P : Tables → Type 0) (h : Handler B) : Type 0 where
  pub at : (w : World) → P w.tables → ¬ (IsSuccess ((h w).0)) → P (h w).1.tables

pub Keeps-reads : {A : Type 0} (P : Tables → Type 0) (m : M A) → IsReadOnly m → Keeps P m
Keeps-reads P m o = record { at = λ w h. rw (o.at w) h }

module _ {B : Type 0} (P : Tables → Type 0) where
  pub Spares-reply : (r : Reply B) → Spares P (reply r)
  Spares-reply r = record { at = λ w h. h }

  pub Spares-call :
      {A : Type 0} (m : M A) (k : Result A → Handler B)
      → Keeps P m
      → ((r : Result A) → Spares P (k r))
      → Spares P (call m k)
  Spares-call m k o g = record { at = λ w h. (g ((m w).0)).at ((m w).1) (o.at w h) }

  pub Spares-if :
      (b : Bool) (h k : Handler B) → Spares P h → Spares P k → Spares P (if b then h else k)
  Spares-if true h k g f = g
  Spares-if false h k g f = f

  pub Spares-going_on : (p : Reply B) (k : Handler B) → Spares P k → Spares P (going_on p k)
  Spares-going_on p k g = record { at = λ w h. g.at w h }

  pub Guards-Spares : (h : Handler B) → Spares P h → Guards P h
  Guards-Spares h s = record { at = λ w k n. s.at w k }

  pub Guards-reply : (r : Reply B) → Guards P (reply r)
  Guards-reply r = record { at = λ w h n. h }

  pub Guards-call :
      {A : Type 0} (m : M A) (k : Result A → Handler B)
      → Keeps P m
      → ((r : Result A) → Guards P (k r))
      → Guards P (call m k)
  Guards-call m k o g = record { at = λ w h n. (g ((m w).0)).at ((m w).1) (o.at w h) n }

  -- The last call of a handler, which changes nothing if it fails
  atomic_call :
      {A : Type 0} (m : M A) (k : Result A → Handler B) (w : World) (r : Result A)
      → (m w).0 ≡ r
      → IsAtomic m
      → ((e : Error) → Guards P (k (err e)))
      → ((a : A) (w' : World) → IsSuccess ((k (ok a) w').0))
      → P w.tables
      → ¬ (IsSuccess ((k r (m w).1).0))
      → P (k r (m w).1).1.tables
  atomic_call m k w (ok a) e atomic failing done h n = absurd (n (done a ((m w).1)))
  atomic_call m k w (err x) e atomic failing done h n =
      (failing x).at ((m w).1) (rw (atomic.at w x e) h) n

  pub Guards-atomic :
      {A : Type 0} (m : M A) (k : Result A → Handler B)
      → IsAtomic m
      → ((e : Error) → Guards P (k (err e)))
      → ((a : A) (w' : World) → IsSuccess ((k (ok a) w').0))
      → Guards P (call m k)
  Guards-atomic m k atomic failing done = record {
    at = λ w h n. atomic_call m k w ((m w).0) refl atomic failing done h n;
  }

  pub Guards-unless_sent :
      (o : Option Problem) (k : Handler B) → Guards P k → Guards P (unless_sent o k)
  Guards-unless_sent none k g = g
  Guards-unless_sent (some p) k g = Guards-reply (refused p)

  pub Guards-if :
      (b : Bool) (h k : Handler B) → Guards P h → Guards P k → Guards P (if b then h else k)
  Guards-if true h k g f = g
  Guards-if false h k g f = f

  pub Guards-going_on : (p : Reply B) (k : Handler B) → Guards P k → Guards P (going_on p k)
  Guards-going_on p k g = record { at = λ w h n. g.at w h n }

-- The BSOs are those given
abbrev pub HasBsos : List BsoRow → Tables → Type 0
HasBsos b t = t.bso ≡ b

insert_keeps :
    (b : List BsoRow) (name : Text) (m : ℕ) (t : Tables)
    → HasBsos b t
    → (id : ℕ) (t' : Tables) → insert_collection name m t ≡ ok (id, t')
    → HasBsos b t'
unfolding insert_collection
insert_keeps b name m t h id t' e = ground arith

create_collection-Keeps :
    (b : List BsoRow) (name : Text) → Keeps (HasBsos b) (create_collection name)
unfolding create_collection
create_collection-Keeps b name =
    Keeps-if _ _ _
      (Keeps-transaction _ (
        Keeps-bind _ _ Keeps-now
          λ m. Keeps-exec (insert_collection name m) (insert_keeps b name m)))
      (Keeps-throw _)

module _ (P : Tables → Type 0) (name : Text) (created : Keeps P (create_collection name)) where
  or_make-Keeps : (make : Bool) (r : Result ℕ) → Keeps P (or_make name make r)
  or_make-Keeps make (ok id) = Keeps-pure id
  or_make-Keeps true (err not_found) = created
  or_make-Keeps true (err e) = Keeps-throw e
  or_make-Keeps false (err e) = Keeps-throw e

  -- getcid keeps what CreateCollection keeps.
  pub getcid-Keeps : (make : Bool) → Keeps P (getcid name make)
  unfolding getcid
  getcid-Keeps make =
      Keeps-if _ _ _
        (Keeps-bind _ _ (Keeps-attempt _ (Keeps-reads _ _ (get_collection_id-IsReadOnly name)))
          (or_make-Keeps make))
        (Keeps-throw _)

-- getcid, which may make a collection, changes no BSO.
pub getcid-HasBsos :
    (b : List BsoRow) (name : Text) (make : Bool) → Keeps (HasBsos b) (getcid name make)
getcid-HasBsos b name make = getcid-Keeps _ name (create_collection-Keeps b name) make
