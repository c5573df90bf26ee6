-- ===== src/Protocol/Validate.antt =====
-- The `Validate` methods of domain/entity/control/protocol.go, and `WithoutAttachmentData`.
-- SHA-256 is Go's, and stands as the field of a `Codec`.
use Prim.Native.Char.{code}
use Prim.Native.String.{len}
use agent_runtime_client.Base.{
  ℕ, ◌+◌, ◌*◌, ◌/◌, is_pos, is_neg, exceeds, int_eq, pos, String, Bool, true, false, not, ◌&&◌,
  ◌||◌, ◌==◌, eqb, leb, ltb, if◌then◌else◌, Option, none, some, List, [], ◌∷◌, map, length, any,
}
use agent_runtime_client.Protocol.Error.{
  Result, ok, err, reject, ◌>>=◌, ◌>>◌, action_protocol, action_fields, deadline_required,
  unsupported_risk, unsupported_decision, observation_protocol, observation_fields,
  too_many_attachments, duplicate_attachment, unsupported_status, attachment_fields,
  attachment_mime, attachment_encoding, attachment_size, attachment_data, attachment_large,
  attachment_decode, attachment_length, attachment_digest, progress_protocol, progress_fields,
  progress_range,
}
use agent_runtime_client.Protocol.Base64.{decode_base64}
use agent_runtime_client.Protocol.Message.{
  zero_time, protocol, attachment_encoding_base64, max_attachment_bytes,
  max_observation_attachments, type_action, type_observation, type_progress, risk_low, risk_medium,
  risk_high, allow, ask_user, block, Object, Attachment, Action, Observation, Progress,
}

abbrev pub succeeded : String
succeeded = "SUCCEEDED"

abbrev pub obs_failed : String
obs_failed = "FAILED"

abbrev pub obs_cancelled : String
obs_cancelled = "CANCELLED"

abbrev pub expired : String
expired = "EXPIRED"

abbrev pub blocked : String
blocked = "BLOCKED"

abbrev pub obs_waiting_approval : String
obs_waiting_approval = "WAITING_APPROVAL"

abbrev pub obs_waiting_user : String
obs_waiting_user = "WAITING_USER"

-- The hexadecimal text of `sha256.Sum256`.
pub record Codec : Type 0 where
  pub sha256_hex : List ℕ → String

-- `base64.StdEncoding.EncodedLen`
abbrev pub encoded_len : ℕ → ℕ
encoded_len n = (n + 2) / 3 * 4

abbrev lower : ℕ → ℕ
lower c = if leb b'A' c && leb c b'Z' then c + 32 else c

-- `strings.EqualFold`, for a left side of hexadecimal digits.
unfoldable pub equal_fold : String → String → Bool
equal_fold String.[] String.[] = true
equal_fold String.[] (String.◌∷◌ d t) = false
equal_fold (String.◌∷◌ c s) String.[] = false
equal_fold (String.◌∷◌ c s) (String.◌∷◌ d t) =
    eqb (lower (code c)) (lower (code d)) && equal_fold s t

-- `Action.Validate`
unfoldable pub validate_action : Action → Result (Unit {0})
validate_action a = do
  reject (not (a.protocol == protocol) || not (a.type == type_action)) action_protocol
  reject
      (a.task_id == ""
        || a.action_id == ""
        || a.idempotency_key == ""
        || a.capability == ""
        || not (is_pos a.sequence))
      action_fields
  reject (eqb a.deadline zero_time) deadline_required
  reject
      (not (a.policy.risk == risk_low)
        && not (a.policy.risk == risk_medium)
        && not (a.policy.risk == risk_high))
      (unsupported_risk a.policy.risk)
  reject
      (not (a.policy.decision == allow)
        && not (a.policy.decision == ask_user)
        && not (a.policy.decision == block))
      (unsupported_decision a.policy.decision)

-- The statuses that the `switch` of `Observation.Validate` accepts.
unfoldable pub valid_observation_status : String → Bool
valid_observation_status s =
    s == succeeded
    || s == obs_failed
    || s == obs_cancelled
    || s == expired
    || s == blocked
    || s == obs_waiting_approval
    || s == obs_waiting_user

module _ (codec : Codec) where
  -- What `Attachment.Validate` checks of the decoded payload.
  unfoldable pub validate_payload : Attachment → Option (List ℕ) → Result (Unit {0})
  validate_payload a none = err attachment_decode
  validate_payload a (some decoded) = do
    reject (not (int_eq (pos (length decoded)) a.size)) attachment_length
    reject (not (equal_fold (codec.sha256_hex decoded) a.sha256)) attachment_digest

  -- `Attachment.Validate`
  unfoldable pub validate_attachment : Attachment → Result (Unit {0})
  unfolding validate_payload
  validate_attachment a = do
    reject (a.id == "" || not (a.kind == "image") || a.sha256 == "") attachment_fields
    reject
        (not (a.mime_type == "image/png")
          && not (a.mime_type == "image/jpeg")
          && not (a.mime_type == "image/webp"))
        attachment_mime
    reject (not (a.encoding == attachment_encoding_base64)) attachment_encoding
    reject (not (is_pos a.size) || exceeds a.size max_attachment_bytes) attachment_size
    reject (a.payload == "") attachment_data
    reject (ltb (encoded_len max_attachment_bytes) (len a.payload)) attachment_large
    validate_payload a (decode_base64 a.payload)

  -- The loop of `Observation.Validate`; `seen` is the set `attachmentIDs`.
  unfoldable pub validate_attachments : List String → List Attachment → Result (Unit {0})
  validate_attachments seen [] = ok tt
  validate_attachments seen (a ∷ rest) = do
    reject (any (λ id. id == a.id) seen) (duplicate_attachment a.id)
    validate_attachment a
    validate_attachments (a.id ∷ seen) rest

  -- `Observation.Validate`
  unfoldable pub validate_observation : Observation → Result (Unit {0})
  validate_observation o = do
    reject (not (o.protocol == protocol) || not (o.type == type_observation)) observation_protocol
    reject
        (o.task_id == ""
          || o.action_id == ""
          || not (is_pos o.sequence)
          || eqb o.observed_at zero_time)
        observation_fields
    reject (ltb max_observation_attachments (length o.attachments)) too_many_attachments
    validate_attachments [] o.attachments
    if valid_observation_status o.status then ok tt else err (unsupported_status o.status)

-- `Progress.Validate`
unfoldable pub validate_progress : Progress → Result (Unit {0})
validate_progress p = do
  reject (not (p.protocol == protocol) || not (p.type == type_progress)) progress_protocol
  reject
      (p.task_id == "" || p.action_id == "" || not (is_pos p.sequence) || eqb p.sent_at zero_time)
      progress_fields
  reject (is_neg p.progress || exceeds p.progress 100) progress_range

-- An attachment without its payload.
abbrev pub strip : Attachment → Attachment
strip a = record a { payload = "" }

-- `Observation.WithoutAttachmentData`
unfoldable pub without_attachment_data : Observation → Observation
without_attachment_data o = record o { attachments = map strip o.attachments }

-- `ActionFromMap`; `recode` is `json.Marshal` of the map and `json.Unmarshal` into an action.
unfoldable pub action_from_map : (Object → Result Action) → Object → Result Action
action_from_map recode value = do
  a ← recode value
  reject (not (a.protocol == protocol) || not (a.type == type_action)) action_protocol
  validate_action a
  ok a
