-- ===== src/ExchangeAdapter/Adapter/Once.antt =====
-- Mutations that are made again after they have succeeded.
use turtle_qts_execution.Base.{
  ◌≡◌, refl, ◌∙◌, arith, some, List, [], ◌∷◌, Text, text_eq, text_eq_refl, Fields, Outcome, ok, err,
  lookup, lookup-insert_self, lookup-insert_new, Dict, Numerals, Option-cases, inl, inr,
}
use turtle_qts_execution.ExchangeAdapter.Adapter.{
  Stored, ExchangeAdapter, Mutation, store, keep_result, mutate, call, calls, request_key,
}

-- A stored result stays.
store-keeps :
    (key k : Text) (value r : Stored) (results : Dict Text Stored)
    → lookup text_eq k results ≡ some r
    → lookup text_eq k (store key value results).1 ≡ some r
unfolding store
store-keeps key k value r results h = elim (Option-cases (lookup text_eq key results)) [
  | inl new ↦ rw (new, store) (lookup-insert_new text_eq key k value r results new h)
  | inr (first, old) ↦ rw (old, store) h
]

-- What is stored is what is returned from then on.
store-stored :
    (key : Text) (value : Stored) (results : Dict Text Stored)
    → lookup text_eq key (store key value results).1 ≡ some (store key value results).0
unfolding store
store-stored key value results = elim (Option-cases (lookup text_eq key results)) [
  | inl new ↦ rw (new, store) (lookup-insert_self text_eq key value results (text_eq_refl key))
  | inr (first, old) ↦ rw (old, store) old
]

module _ {V : Type 0} (n : Numerals) (hash_of : Fields → Text) (now : V → Text)
    (transmit : Mutation → V → Outcome Stored × V) where
  keep_result-keeps :
      (key k : Text) (r : Stored) (a : ExchangeAdapter) (o : Outcome Stored × V)
      → lookup text_eq k a.results ≡ some r
      → lookup text_eq k (keep_result n hash_of now transmit key a o).1.0.results ≡ some r
  unfolding keep_result
  keep_result-keeps key k r a (err x, v) h = h
  keep_result-keeps key k r a (ok result, v) h = store-keeps key k result r a.results h

  mutate-keeps :
      (key k logical_action : Text) (payload : Fields) (request : Mutation) (r : Stored)
      (w : ExchangeAdapter × V)
      → lookup text_eq k w.0.results ≡ some r
      → lookup text_eq k
          (mutate n hash_of now transmit key logical_action payload request w).1.0.results
        ≡ some r
  unfolding mutate
  mutate-keeps key k logical_action payload request r (a, v) h =
      elim (Option-cases (lookup text_eq key a.results)) [
        | inl new ↦ rw (new, mutate) (keep_result-keeps key k r _ (transmit request v) h)
        | inr (cached, old) ↦ rw (old, mutate) h
      ]

  call-keeps :
      (request : Mutation) (k : Text) (r : Stored) (w : ExchangeAdapter × V)
      → lookup text_eq k w.0.results ≡ some r
      → lookup text_eq k (call n hash_of now transmit request w).1.0.results ≡ some r
  unfolding call
  call-keeps (Mutation.placing q) k r w h = mutate-keeps _ k _ _ _ r w h
  call-keeps (Mutation.amending q) k r w h = mutate-keeps _ k _ _ _ r w h
  call-keeps (Mutation.cancelling q) k r w h = mutate-keeps _ k _ _ _ r w h
  call-keeps (Mutation.cancelling_all q) k r w h = mutate-keeps _ k _ _ _ r w h

  calls-keeps :
      (requests : List Mutation) (k : Text) (r : Stored) (w : ExchangeAdapter × V)
      → lookup text_eq k w.0.results ≡ some r
      → lookup text_eq k (calls n hash_of now transmit requests w).0.results ≡ some r
  unfolding calls
  calls-keeps [] k r w h = h
  calls-keeps (q ∷ qs) k r w h =
      calls-keeps qs k r (call n hash_of now transmit q w).1 (call-keeps q k r w h)

  keep_result-stored :
      (key : Text) (r : Stored) (a : ExchangeAdapter) (o : Outcome Stored × V)
      → (keep_result n hash_of now transmit key a o).0 ≡ ok r
      → lookup text_eq key (keep_result n hash_of now transmit key a o).1.0.results ≡ some r
  unfolding keep_result
  keep_result-stored key r a (err x, v) h = cc h
  keep_result-stored key r a (ok result, v) h =
      store-stored key result a.results ∙ (ground (arith, h))

  mutate-stored :
      (key logical_action : Text) (payload : Fields) (request : Mutation) (r : Stored)
      (w : ExchangeAdapter × V)
      → (mutate n hash_of now transmit key logical_action payload request w).0 ≡ ok r
      → lookup text_eq key
          (mutate n hash_of now transmit key logical_action payload request w).1.0.results
        ≡ some r
  unfolding mutate
  mutate-stored key logical_action payload request r (a, v) h =
      elim (Option-cases (lookup text_eq key a.results)) [
        | inl new ↦
            rw (new, mutate)
              (keep_result-stored key r _ (transmit request v) (rw (new, mutate) at h))
        | inr (cached, old) ↦ rw (old, mutate) (ground (arith, old, rw (old, mutate) at h))
      ]

  call-stored :
      (request : Mutation) (r : Stored) (w : ExchangeAdapter × V)
      → (call n hash_of now transmit request w).0 ≡ ok r
      → lookup text_eq (request_key request) (call n hash_of now transmit request w).1.0.results
        ≡ some r
  unfolding call request_key
  call-stored (Mutation.placing q) r w h = mutate-stored _ _ _ _ r w h
  call-stored (Mutation.amending q) r w h = mutate-stored _ _ _ _ r w h
  call-stored (Mutation.cancelling q) r w h = mutate-stored _ _ _ _ r w h
  call-stored (Mutation.cancelling_all q) r w h = mutate-stored _ _ _ _ r w h

  mutate-cached :
      (key logical_action : Text) (payload : Fields) (request : Mutation) (r : Stored)
      (w : ExchangeAdapter × V)
      → lookup text_eq key w.0.results ≡ some r
      → mutate n hash_of now transmit key logical_action payload request w ≡ (ok r, w)
  unfolding mutate
  mutate-cached key logical_action payload request r (a, v) h = rw (h, mutate) refl

  call-cached :
      (request : Mutation) (r : Stored) (w : ExchangeAdapter × V)
      → lookup text_eq (request_key request) w.0.results ≡ some r
      → call n hash_of now transmit request w ≡ (ok r, w)
  unfolding call request_key
  call-cached (Mutation.placing q) r w h = mutate-cached _ _ _ _ r w h
  call-cached (Mutation.amending q) r w h = mutate-cached _ _ _ _ r w h
  call-cached (Mutation.cancelling q) r w h = mutate-cached _ _ _ _ r w h
  call-cached (Mutation.cancelling_all q) r w h = mutate-cached _ _ _ _ r w h

  -- Once a mutation has succeeded, any later mutation with its id, after any other calls, gives the same result,
  -- sends nothing to the venue and adds nothing to the audit log.
  pub call_again :
      (request again : Mutation) (between : List Mutation) (r : Stored) (w : ExchangeAdapter × V)
      → request_key again ≡ request_key request
      → (call n hash_of now transmit request w).0 ≡ ok r
      → call n hash_of now transmit again
          (calls n hash_of now transmit between (call n hash_of now transmit request w).1)
        ≡ (ok r, calls n hash_of now transmit between (call n hash_of now transmit request w).1)
  call_again request again between r w same h =
      call-cached again r _
        (rw same (calls-keeps between (request_key request) r _ (call-stored request r w h)))
