-- ===== src/Integration/Reading.antt =====
-- What `GetDesiredEvents` answers for a config map, and the instants that it gives.
use ottoscalr.Prelude.{
  ℕ, ◌-◌, ◌*◌, ◌≤◌, ◌<◌, ◌^◌, ℤ, pos, ◌-ℤ◌, ◌*ℤ◌, wrap, wrap64_small, *ℤ_pos, -ℤ_pos, String, List,
  [], ◌∷◌, ◌++◌, ◌≡◌, inl, inr, refl, arith, ap, ◌∙◌, ◌<>◌,
}
use ottoscalr.Result.{ok, err, failed}
use ottoscalr.Integration.{
  CustomEventMetadata, EventDetails, Reader, second, format_time, event_of, append_event,
  collect_events, get_desired_events,
}

module _ (reader : Reader) where
  -- The values decode to the events' data, one each and in the same order.
  abbrev pub Decoded : List String → List CustomEventMetadata → Type 0
  Decoded [] [] = Unit
  Decoded [] (m ∷ ms) = ⊥
  Decoded (v ∷ vs) [] = ⊥
  Decoded (v ∷ vs) (m ∷ ms) = (reader.unmarshal v ≡ inr m) × Decoded vs ms

  abbrev pub events_of : List CustomEventMetadata → List EventDetails
  events_of [] = []
  events_of (m ∷ ms) = event_of reader m ∷ events_of ms

  collect_events-Decoded :
      (values : List String) (ms : List CustomEventMetadata)
      → Decoded values ms
      → collect_events reader values ≡ ok (events_of ms)
  unfolding collect_events append_event
  collect_events-Decoded [] [] d = refl
  collect_events-Decoded [] (m ∷ ms) d = absurd d
  collect_events-Decoded (v ∷ vs) [] d = absurd d
  collect_events-Decoded (v ∷ vs) (m ∷ ms) d =
      ap (λ r. append_event reader r (collect_events reader vs)) d.0
      ∙ ap (append_event reader (inr m)) (collect_events-Decoded vs ms d.1)

  collect_malformed :
      (before after : List String) (value text : String) (ms : List CustomEventMetadata)
      → Decoded before ms
      → reader.unmarshal value ≡ inl text
      → collect_events reader (before ++ value ∷ after)
        ≡ err (failed ("error while unmarshaling custom event data from configmap: " <> text))
  unfolding collect_events append_event
  collect_malformed [] after value text [] d bad =
      ap (λ r. append_event reader r (collect_events reader after)) bad
  collect_malformed [] after value text (m ∷ ms) d bad = absurd d
  collect_malformed (v ∷ vs) after value text [] d bad = absurd d
  collect_malformed (v ∷ vs) after value text (m ∷ ms) d bad =
      ap (λ r. append_event reader r (collect_events reader (vs ++ value ∷ after))) d.0
      ∙ ap (append_event reader (inr m)) (collect_malformed vs after value text ms d.1 bad)

  module _ (namespace name : String) (start end : ℤ) (values : List String)
      (found : reader.get namespace name ≡ inr values) where
    -- For a config map that is found and whose values all decode, the events are those of its values,
    -- one each and in the same order, whatever the times of the call.
    pub get_desired_events-Decoded :
        (ms : List CustomEventMetadata)
        → Decoded values ms
        → get_desired_events reader namespace name start end ≡ ok (events_of ms)
    unfolding get_desired_events
    get_desired_events-Decoded ms d =
        rw (found, get_desired_events) (collect_events-Decoded values ms d)

    -- Where a value does not decode, behind values that do, the answer is the error of that value,
    -- whatever follows: no event of the config map is given.
    pub get_desired_events-malformed :
        (before after : List String) (value text : String) (ms : List CustomEventMetadata)
        → values ≡ before ++ value ∷ after
        → Decoded before ms
        → reader.unmarshal value ≡ inl text
        → get_desired_events reader namespace name start end
          ≡ err (failed ("error while unmarshaling custom event data from configmap: " <> text))
    unfolding get_desired_events
    get_desired_events-malformed before after value text ms split d bad =
        rw (found, get_desired_events)
          (ap (collect_events reader) split ∙ collect_malformed before after value text ms d bad)

  -- A time of the config map from 1970 on, in its 2 ^ 63 nanoseconds, is read as the instant five
  -- and a half hours before the one that it names.
  pub format_time-pos :
      (tm : String) (seconds : ℕ)
      → reader.parse tm ≡ pos seconds
      → seconds * second < 2 ^ 63
      → 330 * 60 ≤ seconds
      → format_time reader tm ≡ pos ((seconds - 330 * 60) * second)
  unfolding format_time
  format_time-pos tm seconds e bound late =
      ap (λ s. wrap 64 (s *ℤ pos second) -ℤ pos (330 * 60 * second)) e
      ∙ ap (λ p. wrap 64 p -ℤ pos (330 * 60 * second)) (*ℤ_pos seconds second)
      ∙ ap (λ p. p -ℤ pos (330 * 60 * second)) (wrap64_small (seconds * second) bound)
      ∙ -ℤ_pos (seconds * second) (330 * 60 * second) (omega (arith, late))
      ∙ ap pos (omega (arith, late))
