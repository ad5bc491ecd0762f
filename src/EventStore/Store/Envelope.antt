-- ===== src/EventStore/Store/Envelope.antt =====
-- The envelope of an event is read back as the event.
use turtle_qts_execution.Base.{◌≡◌, ok, arith}
use turtle_qts_execution.EventStore.Types.{Event, of_value-event_type}
use turtle_qts_execution.EventStore.Canonical.{
  sort_fields, canonical, insert_field, text_le, stored,
}
use turtle_qts_execution.EventStore.Store.{envelope, envelope_to_event}

-- `_envelope_to_event` undoes the envelope that `append` builds.
pub envelope_to_event-envelope : (e : Event) → envelope_to_event e.event_id (envelope e) ≡ ok e
unfolding envelope_to_event envelope
envelope_to_event-envelope e = ground (arith, of_value-event_type e.event_type)

-- It gives the event with a sorted payload where the fields of the envelope are sorted.
pub envelope_to_event-sort_fields :
    (e : Event) → envelope_to_event e.event_id (sort_fields (envelope e)) ≡ ok (stored e)
unfolding envelope_to_event envelope sort_fields canonical insert_field text_le
envelope_to_event-sort_fields e = ground (arith, of_value-event_type e.event_type)
