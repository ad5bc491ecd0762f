-- ===== src/EventSourcing/Lifecycles.antt =====
-- What the position and order managers share: the members of an enumeration in a payload, the fields of an event,
-- and the checks on the transition that an event records (the branch of `_apply_event` for recorded transitions).
use turtle_qts_execution.Base.{
  ℕ, ◌+◌, max, ◌≡◌, arith, Bool, true, false, not, Option, none, some, Text, codes, Json, null, str,
  int, Fields, get, Outcome, ok, err, ◌>>=◌, or_raise, key_error, type_error, value_error,
  replay_integrity, if◌then◌else◌, Enum, of_value, enum_eq, enum_eq→eq, bind-ok, Bool-cases,
  Option-cases, inl, inr,
}

-- `E(payload[key])`; a value that is no string is no member's value either.
unfoldable pub as_member : {S : Type 0} → Enum S → Option Json → Outcome S
as_member e none = err key_error
as_member e (some (str raw)) = or_raise (of_value e raw) value_error
as_member e (some _) = err value_error

-- `member.value if member is not None else None`
unfoldable pub optional_member : {S : Type 0} → Enum S → Option S → Json
optional_member e none = null
optional_member e (some a) = str (e.value a)

unfoldable pub optional_int : Option ℕ → Json
optional_int none = null
optional_int (some i) = int i

-- `seq = payload.get("seq")`, and then `_next_seq = max(_next_seq, int(seq) + 1)`
unfoldable pub advance : Option Json → ℕ → Outcome ℕ
advance none next_seq = ok next_seq
advance (some null) next_seq = ok next_seq
advance (some (int seq)) next_seq = ok (max next_seq (seq + 1))
advance (some _) next_seq = err type_error

module _ {S T : Type 0} (states : Enum S) (triggers : Enum T) (next_state : S → T → Option S) where
  -- `is_legal(from_state, trigger) and next_state(from_state, trigger) == to_state`
  unfoldable pub leads_to : S → T → S → Bool
  leads_to from_state trigger to_state = elim (next_state from_state trigger) [
    | none ↦ false
    | some s ↦ enum_eq states s to_state
  ]

  -- The state that the event takes an entity in state `current` to.
  unfoldable pub recorded_target : S → Fields → Outcome S
  recorded_target current payload =
      as_member triggers (get (codes "trigger") payload) >>= (λ trigger.
        as_member states (get (codes "from_state") payload) >>= (λ from_state.
          as_member states (get (codes "to_state") payload) >>= (λ to_state.
            if not (enum_eq states from_state current)
            then err replay_integrity
            else if not (leads_to from_state trigger to_state)
            then err replay_integrity
            else ok to_state)))

  leads_to-next_state : (s : S) (t : T) (u : S) → leads_to s t u ≡ true → next_state s t ≡ some u
  unfolding leads_to
  leads_to-next_state s t u h = elim (Option-cases (next_state s t)) [
    | inl e ↦ ground (arith, h, e)
    | inr (v, e) ↦ ground (arith, h, e, enum_eq→eq states v u)
  ]

  checked-target :
      (current from_state : S) (trigger : T) (to_state u : S)
      → (if not (enum_eq states from_state current)
          then err replay_integrity
          else if not (leads_to from_state trigger to_state)
          then err replay_integrity
          else ok to_state)
        ≡ ok u
      → next_state current trigger ≡ some u
  checked-target current from_state trigger to_state u h =
      elim (Bool-cases (enum_eq states from_state current)) [
        | inr e ↦ ground (arith, h, e)
        | inl e ↦ elim (Bool-cases (leads_to from_state trigger to_state)) [
          | inr l ↦ ground (arith, h, e, l)
          | inl l ↦ ground (
            arith,
            h,
            e,
            l,
            enum_eq→eq states from_state current e,
            leads_to-next_state from_state trigger to_state l,
          )
        ]
      ]

  -- An event that is accepted makes a legal step of the entity.
  pub recorded_target-legal :
      (current : S) (payload : Fields) (u : S)
      → recorded_target current payload ≡ ok u
      → (t : T) × (next_state current t ≡ some u)
  unfolding recorded_target
  recorded_target-legal current payload u h =
      let (t, _, h1) = bind-ok (as_member triggers (get (codes "trigger") payload)) _ u h in
      let (f, _, h2) = bind-ok (as_member states (get (codes "from_state") payload)) _ u h1 in
      let (v, _, h3) = bind-ok (as_member states (get (codes "to_state") payload)) _ u h2 in
      (t, checked-target current f t v u h3)

-- A text or None, in a payload.
unfoldable pub optional_text : Option Text → Json
optional_text none = null
optional_text (some t) = str t
