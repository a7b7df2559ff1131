-- ===== src/Web/Cache/Told.antt =====
-- web/cacheHandler.go: what the handler behind the cache was given and answered.
use go_syncstorage.Prelude.{
  ◌≡◌, refl, inl, inr, true, false, Option, none, some, List, [], ◌∷◌, ◌==◌, if◌then◌else◌,
  Bool-cases,
}
use go_syncstorage.Prelude.Text.{Text, codes, text_eq, text_eq_iff}
use go_syncstorage.Web.UserHandler.{is_change}
use go_syncstorage.Web.Cache.{Response, written, problem, crashed, Next, is_info_collections}

-- A request that the handler behind the cache was given, and its answer
pub record Exchange : Type 0 where
  pub uid : Text
  pub method : Text
  pub path : Text
  pub answer : Response

-- The handler, any one at all, with a log of what it was given and answered, the newest first
abbrev pub logged : Next → Next
logged next = record {
  State = next.State × List Exchange;
  serve = λ uid method path r (s, log).
      let (answer, s') = next.serve uid method path r s in
      (answer, (s', (record { uid = uid; method = method; path = path; answer = answer }) ∷ log));
}

-- The time and the list that a success told
abbrev pub told_by : Response → Option (Text × Text) → Option (Text × Text)
told_by (written code m b) before = if code == 200 then some (m, b) else before
told_by (problem p) before = before
told_by crashed before = before

abbrev pub after_exchange : Exchange → Option (Text × Text) → Option (Text × Text)
after_exchange x before =
    if is_info_collections x.method x.path
    then told_by x.answer before
    else if is_change x.method
    then none
    else before

-- What the handler told the user last of info/collections, unless a change of the user came after it
unfoldable pub last_told : Text → List Exchange → Option (Text × Text)
last_told user [] = none
last_told user (x ∷ log) =
    let before = last_told user log in
    if text_eq x.uid user then after_exchange x before else before

pub get_no_change : (method : Text) → text_eq method (codes "GET") ≡ true → is_change method ≡ false
unfolding is_change text_eq
get_no_change method e = rw ((text_eq_iff method (codes "GET")).0 e) refl

pub config_is_config : text_eq (codes "config") (codes "config") ≡ true
unfolding text_eq
config_is_config = refl

pub others_told :
    (x : Exchange) (log : List Exchange) (user : Text)
    → text_eq x.uid user ≡ false
    → last_told user (x ∷ log) ≡ last_told user log
unfolding last_told
others_told x log user apart = rw (apart, if◌then◌else◌) refl

-- An exchange that is neither a success of info/collections nor a change tells nobody anything.
pub nothing_told :
    (x : Exchange) (log : List Exchange) (user : Text)
    → ((before : Option (Text × Text)) → after_exchange x before ≡ before)
    → last_told user (x ∷ log) ≡ last_told user log
unfolding last_told
nothing_told x log user idle = elim (Bool-cases (text_eq x.uid user)) [
  | inl own ↦ rw (own, if◌then◌else◌) (idle (last_told user log))
  | inr apart ↦ rw (apart, if◌then◌else◌) refl
]

pub self_is_self : (uid : Text) → text_eq uid uid ≡ true
self_is_self uid = (text_eq_iff uid uid).1 refl

pub own_told :
    (x : Exchange) (log : List Exchange)
    → last_told x.uid (x ∷ log) ≡ after_exchange x (last_told x.uid log)
unfolding last_told
own_told x log = rw (self_is_self x.uid, if◌then◌else◌) refl
