-- ===== src/HttpApi/Events/Streams.antt =====
-- What the streams of internal/httpapi/api.go hold back and send.
use localsend_nas.Prelude.{
  true, false, List, [], ◌∷◌, ◌++◌, Str, map, All, Result, ok, ◌≡◌, refl, ap,
}
use localsend_nas.Transfer.{Job, is_ended}
use localsend_nas.HttpApi.Events.{Arrival, arrived, frame, stream_job}

-- A snapshot that does not end its stream.
pub record IsOngoing (encode : Job → Result Str Str) (text : Job → Str) (j : Job) : Type 0 where
  pub encoded : encode j ≡ ok (text j)
  pub ongoing : is_ended j.state ≡ false

-- The stream of a job sends every snapshot up to the first one that is done, failed or cancelled,
-- this one included and in order, and ends there, if all of them can be encoded. What else would
-- come is not sent.
pub stream_job_ends :
    (encode : Job → Result Str Str) (text : Job → Str) (js : List Job) (last : Job)
    (later : List Arrival)
    → All (IsOngoing encode text) js
    → encode last ≡ ok (text last)
    → is_ended last.state ≡ true
    → stream_job encode (map arrived js ++ arrived last ∷ later)
      ≡ map (λ j. frame (text j)) (js ++ last ∷ [])
unfolding stream_job
stream_job_ends encode text [] last later h e t = rw (e, t) refl
stream_job_ends encode text (j ∷ js) last later (h, hs) e t =
    rw (h.encoded, h.ongoing)
      (ap (λ fs. frame (text j) ∷ fs) (stream_job_ends encode text js last later hs e t))
