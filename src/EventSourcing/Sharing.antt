-- ===== src/EventSourcing/Sharing.antt =====
-- The agreement of a manager with a store that others write to as well.
use turtle_qts_execution.Base.{
  ℕ, ◌≡◌, ◌≢◌, ◌∙◌, arith, inl, inr, true, false, some, [], Text, Outcome, lookup, lookup-insert_at,
  ==→eq, ◌==◌,
}
use turtle_qts_execution.EventStore.Types.{Event}
use turtle_qts_execution.EventStore.Platform.{Disk, Platform}
use turtle_qts_execution.EventStore.Store.{EventStore, record_event}
use turtle_qts_execution.EventStore.Store.Append.{Appended}
use turtle_qts_execution.EventStore.Store.Reading.{get-record_event_other}
use turtle_qts_execution.EventSourcing.{Manager, replay_own, has_id}
use turtle_qts_execution.EventSourcing.Replaying.{replay_own-other}
use turtle_qts_execution.EventSourcing.Soundness.{
  IsSynced, rebuild-record_event, with_file, indexed-record_event,
}

module _ {S R : Type 0} (m : Manager S R) where
  -- The event is another owner's, and so is its key.
  pub record IsForeign (e : Event) : Type 0 where
    pub other : m.is_own e ≡ false
    pub other_key : (key : Text) → e.idempotency_key ≢ some (m.namespaced_key key)

  known-foreign :
      (s : S) (store : EventStore) (e : Event)
      → IsSynced m (s, store)
      → IsForeign e
      → (i : ℕ) (old : Event) → lookup ◌==◌ i (record_event store e).by_id ≡ some old
      → m.is_own old ≡ true
      → has_id old.event_id (m.applied_event_ids s) ≡ true
  unfolding record_event
  known-foreign s store e h f i old hit own =
      elim (lookup-insert_at ◌==◌ ==→eq i e.event_id e old store.by_id hit) [
        | inl (_, same) ↦ cc (f.other, same, own)
        | inr before ↦ h.known i old before own
      ]

  recorded-IsSynced :
      (s : S) (store : EventStore) (e : Event)
      → IsSynced m (s, store)
      → IsForeign e
      → e.event_id ≡ store.next_event_id
      → IsSynced m (s, record_event store e)
  unfolding replay_own
  recorded-IsSynced s store e h f id = record {
    rebuilt =
        rebuild-record_event m s store e h.rebuilt (rw id h.ids_start)
        ∙ replay_own-other m e [] s f.other;
    ids_start = unfold record_event in omega (arith, h.ids_start);
    known = known-foreign s store e h f;
    own_keys = λ key old hit. h.own_keys key old (
        get-record_event_other store e old (m.namespaced_key key)
          (λ i there. rw id (h.indexed (m.namespaced_key key) i there)) (f.other_key key) hit);
    indexed = indexed-record_event m s store e h id;
  }

  -- Whatever an append of another owner's event does to the store, this manager still agrees with it.
  pub foreign-IsSynced :
      (p : Platform) (s : S) (store : EventStore) (e : Event) (r : Outcome Event × EventStore)
      → {disk : Disk} → Appended p disk store e r
      → IsSynced m (s, store)
      → IsForeign e
      → e.event_id ≡ store.next_event_id
      → IsSynced m (s, r.1)
  foreign-IsSynced p s store e r (Appended.refused x file eq _) h f id =
      rw eq (with_file m s store file h)
  foreign-IsSynced p s store e r (Appended.duplicate k i old _ _ _ eq) h f id = rw eq h
  foreign-IsSynced p s store e r (Appended.recorded file eq _ _ _) h f id =
      rw eq (recorded-IsSynced s (record store { file = file }) e (with_file m s store file h) f id)
