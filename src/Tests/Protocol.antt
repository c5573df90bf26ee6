-- ===== src/Tests/Protocol.antt =====
-- The messages of domain/entity/control/protocol.go on small inputs.
use agent_runtime_client.Base.{some, none, true, [], ◌∷◌, ◌≡◌, ◌≢◌, ◌↔◌, refl, All}
use agent_runtime_client.Protocol.Base64.{decode_base64}
use agent_runtime_client.Protocol.Error.{ok}
use agent_runtime_client.Protocol.Message.{Observation}
use agent_runtime_client.Protocol.Status.{
  terminal_task_status, can_transition_task_status, transition_from_terminal, completed, executing,
}
use agent_runtime_client.Protocol.Validate.{
  validate_action, validate_attachment, validate_observation, without_attachment_data,
  validate_attachments, equal_fold, valid_observation_status,
}
use agent_runtime_client.Protocol.Accepted.{ActionAccepted, validate_action_iff}
use agent_runtime_client.Protocol.Attachments.{
  AttachmentAccepted, validate_attachment_iff, ObservationAccepted, validate_observation_iff,
  stripped-not_valid, without_attachment_data_lem, restore,
}
use agent_runtime_client.Tests.Data.{one_digest, click, clicked, screenshot}

abbrev shown_screen : Observation
shown_screen = record clicked { attachments = screenshot ∷ [] }

validate_action-click : validate_action click ≡ ok tt
unfolding validate_action
validate_action-click = refl

validate_observation-screen : validate_observation one_digest shown_screen ≡ ok tt
unfolding validate_observation validate_attachments validate_attachment equal_fold
    valid_observation_status decode_base64
validate_observation-screen = refl

validate_action_iff_example : (validate_action click ≡ ok tt) ↔ ActionAccepted click
validate_action_iff_example = validate_action_iff click

validate_attachment_iff_example :
    (validate_attachment one_digest screenshot ≡ ok tt) ↔ AttachmentAccepted one_digest screenshot
validate_attachment_iff_example = validate_attachment_iff one_digest screenshot

validate_observation_iff_example :
    (validate_observation one_digest shown_screen ≡ ok tt)
    ↔ ObservationAccepted one_digest shown_screen
validate_observation_iff_example = validate_observation_iff one_digest shown_screen

stripped-not_valid_example :
    validate_observation one_digest (without_attachment_data shown_screen) ≢ ok tt
stripped-not_valid_example = stripped-not_valid one_digest shown_screen (λ e. cc)

without_attachment_data_example :
    All (λ a. a.payload ≡ "") (without_attachment_data shown_screen).attachments
    × (record (without_attachment_data shown_screen) {
      attachments =
          restore shown_screen.attachments (without_attachment_data shown_screen).attachments;
    }
        ≡ shown_screen)
    × (without_attachment_data (without_attachment_data shown_screen)
        ≡ without_attachment_data shown_screen)
without_attachment_data_example = without_attachment_data_lem shown_screen

transition_from_terminal_example :
    (can_transition_task_status completed executing ≡ true) ↔ (completed ≡ executing)
unfolding terminal_task_status
transition_from_terminal_example = transition_from_terminal completed executing refl

decode_base64_hello : decode_base64 "SGVs\nbG8=" ≡ some (72 ∷ 101 ∷ 108 ∷ 108 ∷ 111 ∷ [])
unfolding decode_base64
decode_base64_hello = refl

decode_base64_cut : decode_base64 "SGVsb" ≡ none
unfolding decode_base64
decode_base64_cut = refl

decode_base64_trailing : decode_base64 "Bw==Bw==" ≡ none
unfolding decode_base64
decode_base64_trailing = refl
