-- ===== src/Session/Database.antt =====
-- References and intervals: `bindReference` and `queryInterval` of src/debug/session.ts. The decoding
-- of base64 into words, and the server's reply, are parameters.
use rtl_debugger.Common.{
  ℕ, suc, ◌+◌, ◌≡◌, ap, ◌∙◌, inl, inr, Bool, true, false, Bool-cases, List, [], ◌∷◌, Option, none,
  some, ◌==◌, ==_iff, refl, if◌then◌else◌, Result, ok, throw, ◌>>=◌, reference_error, type_error,
  arith,
}
use rtl_debugger.Common.Map.{get, put, get-put, get-put_other}
use rtl_debugger.Common.Text.{Text, codes, text_eq, text_eq-eq}
use rtl_debugger.Proto.{Command, reference_items, QueryInterval, ProtoSample}
use rtl_debugger.Time.{TimeInterval, interval_to_cxxrtl, from_cxxrtl}
use rtl_debugger.Sample.{UnboundReference, Reference, bind, cxxrtl_item_designations, Sample}

abbrev pub Epochs : Type 0
Epochs = List (Text × ℕ)

-- `get(name) || 0`.
abbrev epoch_or_zero : Option ℕ → ℕ
epoch_or_zero none = 0
epoch_or_zero (some epoch) = epoch

abbrev pub next_epoch : Text → Epochs → ℕ
next_epoch name epochs = epoch_or_zero (get name epochs) + 1

abbrev pub advance_reference_epoch : Text → Epochs → Epochs
advance_reference_epoch name epochs = put name (next_epoch name epochs) epochs

abbrev check_current : ℕ → Option ℕ → Result (Unit {0})
check_current requested none = throw reference_error
check_current requested (some current) =
    if current == requested then ok tt else throw reference_error

pub check_reference_epoch : Text → ℕ → Epochs → Result (Unit {0})
check_reference_epoch name requested epochs = check_current requested (get name epochs)

-- The reference, the command that is sent for it, and the epochs.
unfoldable pub bind_reference : Text → UnboundReference → Epochs → Reference × Command × Epochs
bind_reference name reference epochs = (
  bind name (next_epoch name epochs) reference,
  reference_items name (some (cxxrtl_item_designations reference)),
  advance_reference_epoch name epochs,
)

-- `options.collapse ?? true`.
abbrev or_true : Option Bool → Bool
or_true none = true
or_true (some b) = b

pub interval_query : TimeInterval → Reference → Option Bool → QueryInterval
interval_query interval reference collapse = record {
  interval = interval_to_cxxrtl interval;
  collapse = or_true collapse;
  items = some reference.name;
  item_values_encoding = some (codes "base64(u32)");
  diagnostics = false;
}

module _ (decode : Text → List ℕ) where
  -- A sample without values makes `Buffer.from` throw.
  read_sample : UnboundReference → ProtoSample → Result Sample
  read_sample unbound sample = elim sample.item_values [
    | none ↦ throw type_error
    | some values ↦ elim (from_cxxrtl sample.time) [
      | throw e ↦ throw e
      | ok time ↦ ok (record { time = time; reference = unbound.id; variable_data = decode values })
    ]
  ]

  pub read_samples : UnboundReference → List ProtoSample → Result (List Sample)
  unfolding read_sample
  read_samples unbound [] = ok []
  read_samples unbound (x ∷ xs) = do
    sample ← read_sample unbound x
    samples ← read_samples unbound xs
    ok (sample ∷ samples)

  pub query_interval :
      Epochs
      → TimeInterval
      → Reference
      → Option Bool
      → (QueryInterval → Result (List ProtoSample))
      → Result (List Sample)
  unfolding check_reference_epoch interval_query read_samples
  query_interval epochs interval reference collapse server = do
    _ ← check_reference_epoch reference.name reference.epoch epochs
    samples ← server (interval_query interval reference collapse)
    read_samples reference.unbound samples

-- The epochs behind bindings of names, one after the other.
abbrev pub bound : List (Text × UnboundReference) → Epochs → Epochs
bound [] epochs = epochs
bound ((name, reference) ∷ bindings) epochs = bound bindings (advance_reference_epoch name epochs)

-- How many of the bindings are of a name.
abbrev pub count : Text → List (Text × UnboundReference) → ℕ
count name [] = 0
count name ((other, reference) ∷ bindings) =
    if text_eq other name then suc (count name bindings) else count name bindings

get-bound :
    (name : Text) (bindings : List (Text × UnboundReference)) (epochs : Epochs) (n : ℕ)
    → get name epochs ≡ some n
    → get name (bound bindings epochs) ≡ some (n + count name bindings)
get-bound name [] epochs n h = h ∙ ap some (omega arith)
get-bound name ((other, r) ∷ bindings) epochs n h = elim (Bool-cases (text_eq other name)) [
  | inl same ↦
      let e : other ≡ name = text_eq-eq other name same in
      let advanced : get name (advance_reference_epoch other epochs) ≡ some (n + 1) =
        ap (λ o. get name (advance_reference_epoch o epochs)) e
        ∙ get-put name (next_epoch name epochs) epochs
        ∙ ap (λ x. some (epoch_or_zero x + 1)) h in
      rw same (
        get-bound name bindings (advance_reference_epoch other epochs) (n + 1) advanced
        ∙ ap some (omega arith))
  | inr off ↦ rw off (
      get-bound name bindings (advance_reference_epoch other epochs) n
        (get-put_other name other (next_epoch other epochs) epochs off ∙ h))
]

check_current-later :
    (m n : ℕ) → check_current m (some (m + n)) ≡ (if n == 0 then ok tt else throw reference_error)
check_current-later m n = ground arith

-- A query of an interval with a reference gives what the server's samples are read as until the
-- reference's name is bound again, and from then on a ReferenceError, with nothing asked of the server.
pub query_interval-bind_reference :
    (decode : Text → List ℕ) (server : QueryInterval → Result (List ProtoSample)) (name : Text)
    (unbound : UnboundReference) (epochs : Epochs) (later : List (Text × UnboundReference))
    (interval : TimeInterval) (collapse : Option Bool)
    → let (reference, command, epochs') = bind_reference name unbound epochs in
      query_interval decode (bound later epochs') interval reference collapse server ≡ (
        if count name later == 0
        then (server (interval_query interval reference collapse) >>= λ samples.
            read_samples decode reference.unbound samples)
        else throw reference_error)
unfolding bind_reference check_reference_epoch bind query_interval
query_interval-bind_reference decode server name unbound epochs later interval collapse =
    let e =
      get-bound name later (advance_reference_epoch name epochs) (next_epoch name epochs)
        (get-put name (next_epoch name epochs) epochs) in
    rw (e, check_current-later (next_epoch name epochs) (count name later))
      (elim (Bool-cases (count name later == 0)) [
        | inl none_later ↦ rw none_later
        | inr some_later ↦ rw some_later
      ])

-- A query with the reference that its name was bound to last.
pub query_interval_current :
    (epochs : Epochs) (r : Reference) (decode : Text → List ℕ) (interval : TimeInterval)
    (server : QueryInterval → Result (List ProtoSample))
    → get r.name epochs ≡ some r.epoch
    → query_interval decode epochs interval r none server ≡ (
        server (interval_query interval r none) >>= λ samples.
        read_samples decode r.unbound samples)
unfolding query_interval check_reference_epoch
query_interval_current epochs r decode interval server h =
    rw (h, (==_iff r.epoch r.epoch).1 refl) refl
