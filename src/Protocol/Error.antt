-- ===== src/Protocol/Error.antt =====
-- The errors of the control plane, one constructor for each message of the source, and the result
-- type of code that fails. A wrapped error of the store or of a handler is `external`.
use agent_runtime_client.Base.{Bool, true, false, if◌then◌else◌, String, ◌≡◌, refl, ◌⊎◌, inl, inr}

-- The errors of types/apierror/apierror.go that the code returns.
pub data ApiKind : Type 0 where
  bad_request forbidden not_found runtime_unavailable internal model_binding_required : ApiKind

pub data Error : Type 0 where
  action_protocol action_fields deadline_required : Error
  unsupported_risk unsupported_decision : String → Error
  observation_protocol observation_fields too_many_attachments : Error
  duplicate_attachment unsupported_status : String → Error
  attachment_fields attachment_mime attachment_encoding attachment_size attachment_data : Error
  attachment_large attachment_decode attachment_length attachment_digest : Error
  progress_protocol progress_fields progress_range : Error
  device_fields device_offline device_bound capability_unsupported device_ambiguous : Error
  unauthenticated device_of_another capability_missing task_of_another already_queued : Error
  progress_mismatch nil_map_write : Error
  task_status : String → Error
  deadline_expired already_pending send_failed observation_mismatch cancelled timed_out : Error
  external : String → Error
  api : ApiKind → String → Error
  nil_pointer : Error

pub data Result {ℓ} (A : Type ℓ) : Type ℓ where
  ok : A → Result A
  err : Error → Result A

-- `if test { return err }`
abbrev pub reject : Bool → Error → Result (Unit {0})
reject true e = err e
reject false e = ok tt

-- The check of an error after every call: the first error is returned.
infixl 5 ◌>>=◌ ◌>>◌
abbrev pub ◌>>=◌ {ℓ κ} : {A : Type ℓ} {B : Type κ} → Result A → (A → Result B) → Result B
err e >>= rest = err e
ok a >>= rest = rest a

abbrev pub ◌>>◌ {ℓ} : {B : Type ℓ} → Result (Unit {0}) → Result B → Result B
m >> k = m >>= λ _. k

-- A chain of checks passes when each one does.
pub >>-eq-ok : (m k : Result (Unit {0})) → (m >> k) ≡ ok tt → (m ≡ ok tt) × (k ≡ ok tt)
>>-eq-ok (ok tt) k h = (refl, h)
>>-eq-ok (err e) k h = cc

pub not_rejected : (b : Bool) (e : Error) → reject b e ≡ ok tt → b ≡ false
not_rejected true e h = cc
not_rejected false e h = refl

pub Result-cases {ℓ} :
    {A : Type ℓ} (r : Result A) → ((a : A) × (r ≡ ok a)) ⊎ ((e : Error) × (r ≡ err e))
Result-cases (ok a) = inl (a, refl)
Result-cases (err e) = inr (e, refl)

pub ok-injective {ℓ} : {A : Type ℓ} (a b : A) → ok a ≡ ok b → a ≡ b
ok-injective a b e = cc

-- A test that fails the code has been passed.
pub passed :
    {A : Type 0} (b : Bool) (e : Error) (r : Result A) (a : A)
    → (if b then err e else r) ≡ ok a
    → (b ≡ false) × (r ≡ ok a)
passed true e r a h = cc
passed false e r a h = (refl, h)
