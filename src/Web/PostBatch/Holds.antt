-- ===== src/Web/PostBatch/Holds.antt =====
-- Handlers of a batch upload that change no BSO, and the operations on batches that change none.
use go_syncstorage.Prelude.{ℕ, ◌≡◌, refl, ◌∙◌, Bool, true, false, List, if◌then◌else◌}
use go_syncstorage.Prelude.Text.{Text}
use go_syncstorage.Storage.Data.{Tables, BsoRow, PutBsoInput, Result, ok}
use go_syncstorage.Storage.Driver.{M, exec}
use go_syncstorage.Storage.Driver.Keeps.{
  Keeps, Keeps-transaction, Keeps-bind, IsAtomic, IsAtomic-transaction, Keeps-exec, keeps_rules,
  Keeps-now,
}
use go_syncstorage.Storage.Bso.{post_bsos}
use go_syncstorage.Storage.Batch.{batch_create, batch_append, batch_remove, insert_batch}
use go_syncstorage.Web.Guarded.{
  Spares, Guards, Spares-reply, Spares-call, Spares-if, Spares-going_on, Guards-Spares,
  Guards-reply, Guards-call, Guards-if, Guards-going_on, HasBsos,
}
use go_syncstorage.Web.Reply.{Reply, Handler, reply, call, going_on}

-- Keeping the BSOs: with a commit, unless the answer is a success; without one, always
abbrev pub Holds : Bool → {B : Type 0} → List BsoRow → Handler B → Type 0
Holds true b h = Guards (HasBsos b) h
Holds false b h = Spares (HasBsos b) h

module _ {B : Type 0} (b : List BsoRow) where
  pub Holds-reply : (commit : Bool) (r : Reply B) → Holds commit b (reply r)
  Holds-reply true r = Guards-reply _ r
  Holds-reply false r = Spares-reply _ r

  pub Holds-call :
      {A : Type 0} (commit : Bool) (m : M A) (k : Result A → Handler B)
      → Keeps (HasBsos b) m
      → ((r : Result A) → Holds commit b (k r))
      → Holds commit b (call m k)
  Holds-call true m k o g = Guards-call _ m k o g
  Holds-call false m k o g = Spares-call _ m k o g

  pub Holds-if :
      (commit t : Bool) (h k : Handler B)
      → Holds commit b h
      → Holds commit b k
      → Holds commit b (if t then h else k)
  Holds-if true t h k g f = Guards-if _ t h k g f
  Holds-if false t h k g f = Spares-if _ t h k g f

  pub Holds-going_on :
      (commit : Bool) (p : Reply B) (k : Handler B)
      → Holds commit b k
      → Holds commit b (going_on p k)
  Holds-going_on true p k g = Guards-going_on _ p k g
  Holds-going_on false p k g = Spares-going_on _ p k g

  pub Holds-Guards : (commit : Bool) (h : Handler B) → Holds commit b h → Guards (HasBsos b) h
  Holds-Guards true h g = g
  Holds-Guards false h s = Guards-Spares _ h s

  pub Holds-Spares :
      (commit : Bool) (h : Handler B) → commit ≡ false → Holds commit b h → Spares (HasBsos b) h
  Holds-Spares true h e g = absurd (cc)
  Holds-Spares false h e s = s

module _ (b : List BsoRow) where
  -- A statement that writes no BSO
  write-Keeps :
      {A : Type 0} (f : Tables → A) (g : Tables → Tables)
      → ((t : Tables) → (g t).bso ≡ t.bso)
      → Keeps (HasBsos b) (exec (λ t. ok (f t, g t)))
  write-Keeps f g same = Keeps-exec _ (λ t h a t' e. let p : g t ≡ t' = cc in rw (← p) (same t ∙ h))

  pub batch_create-Keeps : (c : ℕ) (text : Text) → Keeps (HasBsos b) (batch_create c text)
  unfolding batch_create insert_batch
  batch_create-Keeps c text =
      Keeps-transaction _ (Keeps-bind _ _ Keeps-now (λ m. write-Keeps _ _ (λ t. refl)))

  pub batch_append-Keeps : (i c : ℕ) (text : Text) → Keeps (HasBsos b) (batch_append i c text)
  unfolding batch_append
  batch_append-Keeps i c text = Keeps-transaction _ (
      Keeps-bind _ _ Keeps-now
        (λ m. Keeps-bind _ _ (write-Keeps _ _ (λ t. refl)) (λ n. search keeps_rules)))

  pub batch_remove-Keeps : (i : ℕ) → Keeps (HasBsos b) (batch_remove i)
  unfolding batch_remove
  batch_remove-Keeps i = Keeps-transaction _ (write-Keeps _ _ (λ t. refl))

pub post_bsos-IsAtomic : (c : ℕ) (list : List PutBsoInput) → IsAtomic (post_bsos c list)
unfolding post_bsos
post_bsos-IsAtomic c list = IsAtomic-transaction _
