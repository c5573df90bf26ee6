-- ===== src/Protocol/Attachments.antt =====
-- What `Attachment.Validate` and `Observation.Validate` of domain/entity/control/protocol.go accept,
-- and what `WithoutAttachmentData` leaves.
use Prim.Native.String.{len}
use agent_runtime_client.Base.{
  ℕ, ◌≤◌, pos, is_pos, exceeds, int_eq_iff, String, true, false, ◌≡◌, ◌≢◌, ◌⊎◌, ◌↔◌, refl, arith,
  ◌==◌, eq_iff, differs, eqb-false, ltb-false, or_left, or_right, ltb, Option, none, some, List, [],
  ◌∷◌, length, any, map, All, ap,
}
use agent_runtime_client.Protocol.Base64.{decode_base64}
use agent_runtime_client.Protocol.Error.{ok, >>-eq-ok, not_rejected}
use agent_runtime_client.Protocol.Message.{
  zero_time, type_observation, max_attachment_bytes, Attachment, Observation,
}
use agent_runtime_client.Protocol.Accepted.{OneOf, one_of, none_of}
use agent_runtime_client.Protocol.Validate.{
  Codec, equal_fold, encoded_len, validate_payload, validate_attachment, validate_attachments,
  validate_observation, valid_observation_status, without_attachment_data, strip,
}

-- The identifier is none of those listed.
abbrev pub Fresh : String → List String → Type 0
Fresh id seen = All (λ s. s ≢ id) seen

-- No two attachments share an identifier, and none has one of those seen before.
abbrev pub Distinct : List String → List Attachment → Type 0
Distinct seen [] = Unit
Distinct seen (a ∷ rest) = Fresh a.id seen × Distinct (a.id ∷ seen) rest

-- The statuses of an observation.
abbrev pub Reported : String → Type 0
Reported s =
    (s ≡ "SUCCEEDED")
    ⊎ ((s ≡ "FAILED")
        ⊎ ((s ≡ "CANCELLED")
            ⊎ ((s ≡ "EXPIRED")
                ⊎ ((s ≡ "BLOCKED") ⊎ ((s ≡ "WAITING_APPROVAL") ⊎ (s ≡ "WAITING_USER"))))))

reported : (s : String) → valid_observation_status s ≡ true → Reported s
unfolding valid_observation_status
reported s h = ground (
  arith,
  eq_iff s "SUCCEEDED",
  eq_iff s "FAILED",
  eq_iff s "CANCELLED",
  eq_iff s "EXPIRED",
  eq_iff s "BLOCKED",
  eq_iff s "WAITING_APPROVAL",
  eq_iff s "WAITING_USER",
)

Reported-valid : (s : String) → Reported s → valid_observation_status s ≡ true
unfolding valid_observation_status
Reported-valid s h = ground (
  arith,
  eq_iff s "SUCCEEDED",
  eq_iff s "FAILED",
  eq_iff s "CANCELLED",
  eq_iff s "EXPIRED",
  eq_iff s "BLOCKED",
  eq_iff s "WAITING_APPROVAL",
  eq_iff s "WAITING_USER",
)

module _ (codec : Codec) where
  -- The declared size and digest are those of the decoded payload.
  pub record PayloadMatches (a : Attachment) : Type 0 where
    pub decoded : List ℕ
    pub decodes : decode_base64 a.payload ≡ some decoded
    pub size : pos (length decoded) ≡ a.size
    pub digest : equal_fold (codec.sha256_hex decoded) a.sha256 ≡ true

  pub record AttachmentAccepted (a : Attachment) : Type 0 where
    pub id : a.id ≢ ""
    pub kind : a.kind ≡ "image"
    pub sha256 : a.sha256 ≢ ""
    pub mime_type : OneOf a.mime_type "image/png" "image/jpeg" "image/webp"
    pub encoding : a.encoding ≡ "base64"
    pub size : is_pos a.size ≡ true
    pub bounded : exceeds a.size max_attachment_bytes ≡ false
    pub payload : a.payload ≢ ""
    pub encoded : ltb (encoded_len max_attachment_bytes) (len a.payload) ≡ false
    pub matches : PayloadMatches a

  payload_sound :
      (a : Attachment) (o : Option (List ℕ))
      → decode_base64 a.payload ≡ o
      → validate_payload codec a o ≡ ok tt
      → PayloadMatches a
  unfolding validate_payload
  payload_sound a none e h = cc
  payload_sound a (some d) e h = record {
    decoded = d;
    decodes = e;
    size = ground (arith, int_eq_iff (pos (length d)) a.size);
    digest = ground arith;
  }

  payload_complete :
      (a : Attachment)
      → PayloadMatches a
      → validate_payload codec a (decode_base64 a.payload) ≡ ok tt
  unfolding validate_payload
  payload_complete a m =
      rw (m.decodes, (int_eq_iff (pos (length m.decoded)) a.size).1 m.size, m.digest)

  -- `Attachment.Validate` accepts exactly the well-formed attachments.
  pub validate_attachment_iff :
      (a : Attachment) → (validate_attachment codec a ≡ ok tt) ↔ AttachmentAccepted a
  unfolding validate_attachment
  validate_attachment_iff a = (
    λ h. record {
      id = ground (arith, eq_iff a.id "");
      kind = ground (arith, eq_iff a.kind "image");
      sha256 = ground (arith, eq_iff a.sha256 "");
      mime_type = one_of a.mime_type _ _ _ (ground arith);
      encoding = ground (arith, eq_iff a.encoding "base64");
      size = ground arith;
      bounded = ground arith;
      payload = ground (arith, eq_iff a.payload "");
      encoded = ground arith;
      matches = payload_sound a (decode_base64 a.payload) refl (ground arith);
    },
    λ w.
        rw
          (
            differs _ _ w.id,
            w.kind,
            differs _ _ w.sha256,
            none_of _ _ _ _ w.mime_type,
            w.encoding,
            w.size,
            w.bounded,
            differs _ _ w.payload,
            w.encoded,
          )
          (payload_complete a w.matches),
  )

  any-Fresh : (id : String) (seen : List String) → any (λ s. s == id) seen ≡ false → Fresh id seen
  any-Fresh id [] h = tt
  any-Fresh id (s ∷ seen) h =
      ((λ e. cc ((eq_iff s id).1 e, or_left (s == id) _ h)), any-Fresh id seen (or_right _ _ h))

  Fresh-any : (id : String) (seen : List String) → Fresh id seen → any (λ s. s == id) seen ≡ false
  Fresh-any id [] h = refl
  Fresh-any id (s ∷ seen) (p, h) = rw (differs s id p) (Fresh-any id seen h)

  attachments_sound :
      (seen : List String) (xs : List Attachment)
      → validate_attachments codec seen xs ≡ ok tt
      → Distinct seen xs × All AttachmentAccepted xs
  unfolding validate_attachments
  attachments_sound seen [] h = (tt, tt)
  attachments_sound seen (a ∷ rest) h =
      let (fresh, later) = >>-eq-ok _ _ h in
      let (here, others) = >>-eq-ok _ _ later in
      let (distinct, accepted) = attachments_sound (a.id ∷ seen) rest others in
      (
        (any-Fresh a.id seen (not_rejected _ _ fresh), distinct),
        ((validate_attachment_iff a).0 here, accepted),
      )

  attachments_complete :
      (seen : List String) (xs : List Attachment)
      → Distinct seen xs
      → All AttachmentAccepted xs
      → validate_attachments codec seen xs ≡ ok tt
  unfolding validate_attachments
  attachments_complete seen [] d w = refl
  attachments_complete seen (a ∷ rest) (fresh, d) (here, w) =
      rw (Fresh-any a.id seen fresh, (validate_attachment_iff a).1 here)
        (attachments_complete (a.id ∷ seen) rest d w)

  -- A well-formed observation: one of the seven statuses of the protocol, at most two attachments, with distinct identifiers and each with
  -- the size and digest that it declares.
  pub record ObservationAccepted (o : Observation) : Type 0 where
    pub protocol : o.protocol ≡ "athena.agent.v3"
    pub type : o.type ≡ type_observation
    pub task_id : o.task_id ≢ ""
    pub action_id : o.action_id ≢ ""
    pub sequence : is_pos o.sequence ≡ true
    pub observed_at : o.observed_at ≢ zero_time
    pub few : length o.attachments ≤ 2
    pub distinct : Distinct [] o.attachments
    pub accepted : All AttachmentAccepted o.attachments
    pub status : Reported o.status

  -- `Observation.Validate` accepts exactly the well-formed observations.
  pub validate_observation_iff :
      (o : Observation) → (validate_observation codec o ≡ ok tt) ↔ ObservationAccepted o
  unfolding validate_observation
  validate_observation_iff o = (
    λ h.
        let passed : validate_attachments codec [] o.attachments ≡ ok tt = ground arith in
        let (distinct, accepted) = attachments_sound [] o.attachments passed in
        record {
          protocol = ground (arith, eq_iff o.protocol "athena.agent.v3");
          type = ground (arith, eq_iff o.type type_observation);
          task_id = ground (arith, eq_iff o.task_id "");
          action_id = ground (arith, eq_iff o.action_id "");
          sequence = ground arith;
          observed_at = ground arith;
          few = ground arith;
          distinct = distinct;
          accepted = accepted;
          status = reported o.status (ground arith);
        },
    λ w. rw (
      w.protocol,
      w.type,
      differs _ _ w.task_id,
      differs _ _ w.action_id,
      w.sequence,
      eqb-false _ _ w.observed_at,
      ltb-false _ _ w.few,
      attachments_complete [] o.attachments w.distinct w.accepted,
      Reported-valid o.status w.status,
    ),
  )

  -- An observation that had attachments is not a valid message once they are stripped: what is
  -- stored can not be replayed as evidence.
  pub stripped-not_valid :
      (o : Observation)
      → o.attachments ≢ []
      → validate_observation codec (without_attachment_data o) ≢ ok tt
  unfolding without_attachment_data
  stripped-not_valid o nonempty h = by_list o.attachments refl
    where
      accepted : All AttachmentAccepted (map strip o.attachments)
      accepted = ((validate_observation_iff (without_attachment_data o)).0 h).accepted

      by_list : (xs : List Attachment) → o.attachments ≡ xs → ⊥
      by_list [] e = nonempty e
      by_list (a ∷ rest) e =
          let w : All AttachmentAccepted (map strip (a ∷ rest)) = rw e at accepted in
          w.0.payload refl

-- The second list with the payloads of the first, place by place.
abbrev pub restore : List Attachment → List Attachment → List Attachment
restore (a ∷ xs) (b ∷ ys) = record b { payload = a.payload } ∷ restore xs ys
restore _ ys = ys

restore-strip : (xs : List Attachment) → restore xs (map strip xs) ≡ xs
restore-strip [] = refl
restore-strip (a ∷ xs) = ap (λ t. a ∷ t) (restore-strip xs)

strip-payloads : (xs : List Attachment) → All (λ a. a.payload ≡ "") (map strip xs)
strip-payloads [] = tt
strip-payloads (a ∷ xs) = (refl, strip-payloads xs)

strip_idem : (xs : List Attachment) → map strip (map strip xs) ≡ map strip xs
strip_idem [] = refl
strip_idem (a ∷ xs) = ap (λ t. strip a ∷ t) (strip_idem xs)

-- `WithoutAttachmentData` empties every payload and changes nothing else: giving the payloads back
-- in order gives the observation. Doing it twice is doing it once.
pub without_attachment_data_lem :
    (o : Observation)
    → All (λ a. a.payload ≡ "") (without_attachment_data o).attachments
      × (record (without_attachment_data o) {
        attachments = restore o.attachments (without_attachment_data o).attachments;
      }
          ≡ o)
      × (without_attachment_data (without_attachment_data o) ≡ without_attachment_data o)
unfolding without_attachment_data
without_attachment_data_lem o =
    (strip-payloads o.attachments, rw (restore-strip o.attachments), rw (strip_idem o.attachments))
