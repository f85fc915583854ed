-- ===== src/Delivery/Messages/Tests.antt =====
-- A concrete close that its models accept.
use incident_awareness_engin.Delivery.Exactly.{IsOwn}
use incident_awareness_engin.Delivery.Ingress.{run_closed}
use incident_awareness_engin.Delivery.Contract.{validate_message}
use incident_awareness_engin.Delivery.Messages.{IsWellFormed, validate_message-IsWellFormed}
use incident_awareness_engin.Delivery.Tests.{closing}
use incident_awareness_engin.Model.RunId.{codes, validate_run_id}
use incident_awareness_engin.Prelude.{ok, is_blank, is_padded, is_empty, text_length, ◌≡◌, refl}

closing-validated : validate_message (run_closed closing) ≡ ok tt
unfolding validate_message validate_run_id codes is_blank is_padded is_empty text_length
closing-validated = refl

validate_message-IsWellFormed_example :
    IsOwn (run_closed closing) × IsWellFormed (run_closed closing)
validate_message-IsWellFormed_example =
    validate_message-IsWellFormed (run_closed closing) closing-validated
