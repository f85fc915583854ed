-- ===== src/Delivery/Spool/Step.antt =====
-- One file of the spool: what `consume_spool_once` does with its message.
use incident_awareness_engin.Delivery.Ingress.{Digests, R1StreamDeliveryResult, StreamMessage}
use incident_awareness_engin.Delivery.Spool.{
  R1RequiredPartitionContract, SpoolError, delivery_error, ack_error, Spool, check_contract,
  deliver, consume_message,
}
use incident_awareness_engin.Stream.{utc_milliseconds}
use incident_awareness_engin.Prelude.{
  Result, ok, err, Result-split, Datetime, String, ◌≡◌, refl, ◌⊎◌, inl, inr, [], ◌∷◌, ◌++◌,
}

-- The call raises, and nothing changes or the store is that after the delivery; or it returns, and its
-- acknowledgement is behind the others.
abbrev pub Consumed :
    Digests
    → Datetime
    → String
    → StreamMessage
    → Spool
    → Result SpoolError (Unit {0})
    → Spool
    → Type 0
Consumed d now name m sp out sp' =
    ((e : SpoolError) × (out ≡ err e) × (sp' ≡ sp))
    ⊎ ((e : SpoolError) × (out ≡ err e)
        × (sp' ≡ record sp { stored = (deliver d now m sp.stored).1 }))
    ⊎ ((r : R1StreamDeliveryResult) × (accepted_at : Datetime) × (out ≡ ok tt)
        × (deliver d now m sp.stored ≡ (ok r, (deliver d now m sp.stored).1))
        × (sp' ≡ record {
          stored = (deliver d now m sp.stored).1;
          acks =
              sp.acks
              ++ record { name = name; disposition = r.disposition; accepted_at = accepted_at }
                ∷ [];
        }))

pub consume_message-Consumed :
    (contract : R1RequiredPartitionContract) (d : Digests) (now : Datetime) (name : String)
    (m : StreamMessage) (sp : Spool)
    → Consumed d now name m sp
        (consume_message contract d now name m sp).0
        (consume_message contract d now name m sp).1
unfolding consume_message
consume_message-Consumed contract d now name m sp =
    elim (Result-split (check_contract contract m)) [
      | inl (e, refused) ↦
          inl (e, rw (refused, consume_message) refl, rw (refused, consume_message) refl)
      | inr (u, passed) ↦ elim (Result-split (deliver d now m sp.stored).0) [
        | inl (e, raised) ↦ inr (
            inl (
              delivery_error e,
              rw (passed, consume_message) (rw (raised, consume_message) refl),
              rw (passed, consume_message) (rw (raised, consume_message) refl),
            ))
        | inr (r, returned) ↦ elim (Result-split (utc_milliseconds now)) [
          | inl (e, zoneless) ↦ inr (
              inl (
                ack_error e,
                rw (passed, consume_message)
                    (rw (returned, consume_message) (rw (zoneless, consume_message) refl)),
                rw (passed, consume_message)
                    (rw (returned, consume_message) (rw (zoneless, consume_message) refl)),
              ))
          | inr (accepted_at, timed) ↦ inr (
              inr (
                r,
                accepted_at,
                rw (passed, consume_message)
                    (rw (returned, consume_message) (rw (timed, consume_message) refl)),
                λ i. (returned i, (deliver d now m sp.stored).1),
                rw (passed, consume_message)
                    (rw (returned, consume_message) (rw (timed, consume_message) refl)),
              ))
        ]
      ]
    ]
