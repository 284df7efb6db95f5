-- ===== src/InputFile/Parse/Consistent.antt =====
-- The guards of `from_path`, and what a request asks of a parsed file.
use conda_presto.Prelude.{
  ◌≡◌, refl, sym, ap, ◌∙◌, ◌⊎◌, Bool, true, false, not, ◌&&◌, ◌||◌, Option, none, some, List, [],
  arith, inl, inr, string_eq, ◌==◌,
}
use conda_presto.Resolve.Dispatch.{Outcome, returned}
use conda_presto.Workspace.Error.{
  Error, bind-eq-returned, needs_companion, checks_complete_only, each_needs_format,
  requires_conda_lock, filename_required, content_required,
}
use conda_presto.WorkspaceLock.Output.{WorkspaceLockExport}
use conda_presto.Workspace.Input.Composed.{guard}
use conda_presto.InputFile.Request.{
  Request, Parsed, lockfile_name, is_given, checks, companion, check_request, optionally, asked_if,
  check_asked, or_no_documents,
}

pub optionally-given {ℓ κ} :
    {A : Type ℓ} {B : Type κ} (a : Option A) (make : A → Outcome Error B) (b : Option B)
    → optionally a make ≡ returned b
    → is_given b ≡ is_given a
optionally-given none make b h = let same : none ≡ b = cc h in ap is_given (sym same)
optionally-given (some a) make b h =
    let (x, _, last) = bind-eq-returned (make a) (λ b. returned (some b)) b h in
    let same : some x ≡ b = cc last in ap is_given (sym same)

-- What the guards leave of a request.
pub record IsConsistent (r : Request) : Type 0 where
  pub paired :
      (checks r && (not (is_given r.manifest_content) || not (is_given r.manifest_filename)))
      ≡ false
  pub unselected :
      (checks r
        && (is_given r.target_platforms
            || (is_given r.target_environments || (is_given r.export_format || r.export_each))))
      ≡ false
  formatted : (r.export_each && not (is_given r.export_format)) ≡ false
  for_lock : ((r.export_each || companion r) && not (r.name == lockfile_name)) ≡ false
  named : (is_given r.manifest_content && not (is_given r.manifest_filename)) ≡ false
  filled : (is_given r.manifest_filename && not (is_given r.manifest_content)) ≡ false

pub check_request-IsConsistent :
    (r : Request) (u : Unit {0}) → check_request r ≡ returned u → IsConsistent r
unfolding check_request
check_request-IsConsistent r u h =
    let (paired, h1) = guard _ needs_companion _ u h in
    let (unselected, h2) = guard _ checks_complete_only _ u h1 in
    let (formatted, h3) = guard _ each_needs_format _ u h2 in
    let (for_lock, h4) = guard _ requires_conda_lock _ u h3 in
    let (named, h5) = guard _ filename_required _ u h4 in
    let (filled, _) = guard _ content_required _ u h5 in
    record {
      paired = paired;
      unselected = unselected;
      formatted = formatted;
      for_lock = for_lock;
      named = named;
      filled = filled;
    }

-- A parsed file has a check, an update, a document or documents where they are asked for.
pub record IsAsked (r : Request) (p : Parsed) : Type 0 where
  pub checked : is_given p.lock_check ≡ r.check_lock
  pub updated : is_given p.workspace_update ≡ is_given r.update
  pub documents_asked : r.export_each ≡ false → p.exported_documents ≡ []
  pub content_asked :
      (is_given r.export_format ≡ false) ⊎ (r.export_each ≡ true)
      → is_given p.exported_content ≡ false
  pub of_lock :
      (checks r || (r.export_each || companion r)) ≡ true
      → (is_given p.workspace_lock ≡ true) × (r.name ≡ lockfile_name)
  pub whole :
      checks r ≡ true
      → (is_given r.target_platforms
          || (is_given r.target_environments || (is_given r.export_format || r.export_each)))
        ≡ false
  pub lock_content :
      is_given p.workspace_lock ≡ true
      → is_given p.exported_content ≡ (not r.export_each && is_given r.export_format)

none_asked :
    (k e m f l : Bool)
    → (k && (not m || not f)) ≡ false
    → ((e || (m || f)) && not l) ≡ false
    → l ≡ false
    → (k ≡ false) × (e ≡ false) × (m ≡ false) × (f ≡ false)
none_asked k e m f l p q n = (ground arith, ground arith, ground arith, ground arith)

pub both_and : (k b : Bool) → (k && b) ≡ false → k ≡ true → b ≡ false
both_and k b h e = ground arith

pub asked_none {ℓ} :
    {A : Type ℓ} (b : Bool) (a : Option A)
    → (is_given a ≡ false) ⊎ (b ≡ false)
    → is_given (asked_if b a) ≡ false
asked_none false a h = refl
asked_none true a (inl h) = h
asked_none true a (inr h) = cc h

pub asked_both {ℓ} :
    {A : Type ℓ} (b : Bool) (a : Option A) → is_given (asked_if b a) ≡ (b && is_given a)
asked_both false a = refl
asked_both true a = refl

pub no_documents :
    (found : Option (List WorkspaceLockExport))
    → is_given found ≡ false
    → or_no_documents found ≡ []
no_documents none h = refl
no_documents (some documents) h = cc h

pub if_each : (b : Bool) (given : Bool) → (given ≡ false) ⊎ (b ≡ true) → (not b && given) ≡ false
if_each true given h = refl
if_each false given (inl h) = h
if_each false given (inr h) = cc h

pub check-given : (b : Bool) → is_given (check_asked b) ≡ b
check-given false = refl
check-given true = refl

none_of :
    (k e m f : Bool)
    → k ≡ false
    → e ≡ false
    → m ≡ false
    → f ≡ false
    → (k || (e || (m || f))) ≡ false
none_of k e m f hk he hm hf = ground arith

neither : (a b : Bool) → (a || b) ≡ false → (a ≡ false) × (b ≡ false)
neither a b h = (ground arith, ground arith)

pub clash {ℓ} : {A : Type ℓ} (b : Bool) → b ≡ true → b ≡ false → A
clash true h n = cc n
clash false h n = cc h

asks :
    (r : Request) (p : Parsed)
    → (is_given r.export_format ≡ false → is_given p.exported_content ≡ false)
    → r.export_each ≡ false
    → (is_given r.export_format ≡ false) ⊎ (r.export_each ≡ true)
    → is_given p.exported_content ≡ false
asks r p content e (inl h) = content h
asks r p content e (inr h) = clash r.export_each h e

-- What is no conda.lock is asked for nothing of a lock.
pub others-IsAsked :
    (r : Request) (p : Parsed)
    → IsConsistent r
    → (r.name == lockfile_name) ≡ false
    → p.lock_check ≡ none
    → p.workspace_update ≡ none
    → p.exported_documents ≡ []
    → p.workspace_lock ≡ none
    → (is_given r.export_format ≡ false → is_given p.exported_content ≡ false)
    → IsAsked r p
others-IsAsked r p c name check update documents lock content =
    let (no_checks, no_each, no_content, no_name) =
      none_asked (checks r) r.export_each (is_given r.manifest_content)
        (is_given r.manifest_filename) (r.name == lockfile_name) c.paired c.for_lock name in
    let nothing : (r.check_lock ≡ false) × (is_given r.update ≡ false) = neither _ _ no_checks in
    record {
      checked = ap is_given check ∙ sym (nothing.0);
      updated = ap is_given update ∙ sym (nothing.1);
      documents_asked = λ _. documents;
      content_asked = asks r p content no_each;
      of_lock = λ h. clash _ h (
          none_of (checks r) r.export_each (is_given r.manifest_content)
            (is_given r.manifest_filename) no_checks no_each no_content no_name);
      whole = λ h. clash (checks r) h no_checks;
      lock_content = λ h. clash (is_given p.workspace_lock) h (ap is_given lock);
    }
