-- ===== src/Integration.antt =====
-- The custom events, pkg/integration/custom_event_integration.go: `GetDesiredEvents` reads them off a
-- config map. The JSON decoder, `time.Parse` and the API server are fields of `Reader`. A time is a
-- number of nanoseconds since 1970, in which `GetDesiredEvents` gives its events.
pub mod Reading
use ottoscalr.Prelude.{ℕ, ◌*◌, ℤ, pos, ◌-ℤ◌, ◌*ℤ◌, wrap, String, ◌<>◌, List, [], ◌∷◌, ◌⊎◌, inl, inr}
use ottoscalr.Result.{Result, ok, err, panic, failed}

pub record CustomEventMetadata : Type 0 where
  pub event_id : String
  pub event_name : String
  pub start_time : String
  pub end_time : String

pub record EventDetails : Type 0 where
  pub event_name : String
  pub event_id : String
  pub start_time : ℤ
  pub end_time : ℤ

-- An error is given by its text. `parse` gives the seconds since 1970 of the time that `time.Parse`
-- returns, which on an error is the zero time.
pub record Reader : Type 0 where
  pub get : (namespace name : String) → String ⊎ List String  -- the map's values, in some order
  pub unmarshal : String → String ⊎ CustomEventMetadata
  pub parse : String → ℤ

abbrev pub second : ℕ
second = 1000000000

module _ (reader : Reader) where
  -- The product of seconds and nanoseconds is an `int64`.
  unfoldable pub format_time : String → ℤ
  format_time tm =
      let nanoseconds = wrap 64 (reader.parse tm *ℤ pos second) in
      nanoseconds -ℤ pos (330 * 60 * second)

  unfoldable pub event_of : CustomEventMetadata → EventDetails
  unfolding format_time
  event_of metadata = record {
    event_id = metadata.event_id;
    event_name = metadata.event_name;
    start_time = format_time metadata.start_time;
    end_time = format_time metadata.end_time;
  }

  -- A round of the loop over the values, and the rounds that are left.
  unfoldable pub append_event :
      String ⊎ CustomEventMetadata → Result (List EventDetails) → Result (List EventDetails)
  unfolding event_of
  append_event (inl text) rest =
      err (failed ("error while unmarshaling custom event data from configmap: " <> text))
  append_event (inr metadata) rest = elim rest [
    | ok events ↦ ok (event_of metadata ∷ events)
    | err e ↦ err e
    | panic ↦ panic
  ]

  unfoldable pub collect_events : List String → Result (List EventDetails)
  unfolding append_event
  collect_events [] = ok []
  collect_events (value ∷ rest) = append_event (reader.unmarshal value) (collect_events rest)

  -- The times of the call are not read.
  unfoldable pub get_desired_events :
      (namespace configmap_name : String) → (start end : ℤ) → Result (List EventDetails)
  unfolding collect_events
  get_desired_events namespace configmap_name start end =
      elim (reader.get namespace configmap_name) [
        | inl text ↦ err (failed ("error while getting custom event data configmap: " <> text))
        | inr values ↦ collect_events values
      ]
