-- ===== src/Client.antt =====
-- internal/localsend/client.go: the client of other devices. Sending a request and decoding a body
-- are parameters; the transport that `NewClient` sets up is not looked into.
pub mod Answers
use localsend_nas.Prelude.{
  ℕ, Bool, true, false, not, ◌&&◌, ◌/◌, List, [], ◌∷◌, ◌++◌, Option, none, some, Str, codes, ℤ, pos,
  str_eq, length, ltb, ◌==◌, if◌then◌else◌, Result, ok, err, ◌>>=◌, map_err,
}
use localsend_nas.LocalSend.{Info, PrepareRequest, PrepareResponse}
use localsend_nas.Net.{join_host_port, decimal_int}

pub record Request : Type 0 where
  pub method : Str
  pub url : Str
  pub content_type : Str
  pub body : Str
  pub content_length : ℤ

pub record Response : Type 0 where
  pub status : ℕ
  pub body : Str

-- The package net/http, and encoding/json on the messages of the protocol.
pub record Web : Type 0 where
  -- The error of http.NewRequestWithContext, which looks at the method and the URL.
  pub check_request : Str → Str → Option Str
  pub send : Request → Result Str Response
  pub status_text : ℕ → Str
  pub query_escape : Str → Str
  pub decode_info : Str → Result Str Info
  pub encode_prepare : PrepareRequest → Result Str Str
  pub decode_prepared : Str → Result Str PrepareResponse
  -- The field `message` of a body, "" where it has none.
  pub decode_message : Str → Result Str Str

-- `send_error` is SendError; the status is 0 where no response came.
pub data ClientFault : Type 0 where
  bad_request : Str → ClientFault
  encode_failed : Str → ClientFault
  decode_failed : Str → ClientFault
  not_a_node : Str → ℤ → ClientFault
  send_error : ℕ → Str → ClientFault

abbrev pub api_base : Str
api_base = codes "/api/localsend/v2"

-- baseURL
unfoldable pub base_url : Str → ℤ → Str
base_url host port = codes "https://" ++ (join_host_port host (decimal_int port) ++ api_base)

abbrev pub get_request : Str → Request
get_request url = record {
  method = codes "GET";
  url = url;
  content_type = [];
  body = [];
  content_length = pos 0;
}

abbrev pub post_request : Str → Str → Str → ℤ → Request
post_request url content_type body size = record {
  method = codes "POST";
  url = url;
  content_type = content_type;
  body = body;
  content_length = size;
}

-- The query of a request; url.Values.Encode sorts by key.
abbrev pub query : (Str → Str) → List (Str × Str) → Str
query escape [] = []
query escape ((k, v) ∷ []) = k ++ (0x3d ∷ escape v)
query escape ((k, v) ∷ rest) = k ++ (0x3d ∷ (escape v ++ (0x26 ∷ query escape rest)))

-- The calls of `onProgress` by the reads of the body: one for each that gives something.
unfoldable pub progress_calls : List ℕ → List ℤ
progress_calls [] = []
progress_calls (n ∷ reads) =
    let rest = progress_calls reads in if ltb 0 n then pos n ∷ rest else rest

module _ (web : Web) where
  -- statusError
  unfoldable pub status_error : Response → ClientFault
  status_error resp = send_error resp.status (elim (web.decode_message resp.body) [
    | err _ ↦ web.status_text resp.status
    | ok msg ↦ if str_eq msg [] then web.status_text resp.status else msg
  ])

  -- The request is made and sent.
  unfoldable pub exchange : Request → Result ClientFault Response
  exchange req = elim (web.check_request req.method req.url) [
    | some e ↦ err (bad_request e)
    | none ↦ map_err (send_error 0) (web.send req)
  ]

  abbrev pub checked_info : Str → ℤ → Info → Result ClientFault Info
  checked_info host port info =
      if str_eq info.fingerprint [] then err (not_a_node host port) else ok info

  -- Probe
  unfoldable pub probe : Str → ℤ → Result ClientFault Info
  probe host port = do
    resp ← exchange (get_request (base_url host port ++ codes "/info"))
    if resp.status == 200
        then (do
          info ← map_err decode_failed (web.decode_info resp.body)
          checked_info host port info)
        else err (status_error resp)

  -- The response to a prepare-upload; `none` says that nothing is needed.
  unfoldable pub read_prepared : Response → Result ClientFault (Option PrepareResponse × ℕ)
  unfolding status_error
  read_prepared resp =
      if resp.status == 200
      then (do
        prepared ← map_err decode_failed (web.decode_prepared resp.body)
        ok (some prepared, resp.status))
      else if resp.status == 204
      then ok (none, resp.status)
      else err (status_error resp)

  abbrev pub prepare_request : Str → ℤ → Str → Request
  prepare_request host port body =
      post_request (base_url host port ++ codes "/prepare-upload") (codes "application/json") body
        (pos (length body))

  -- Prepare
  unfoldable pub prepare :
      Str → ℤ → PrepareRequest → Result ClientFault (Option PrepareResponse × ℕ)
  unfolding read_prepared
  prepare host port preq = do
    body ← map_err encode_failed (web.encode_prepare preq)
    resp ← exchange (prepare_request host port body)
    read_prepared resp

  -- Upload, of the whole body; the reads of the body call `onProgress` by `progress_calls`.
  unfoldable pub upload : Str → ℤ → Str → Str → Str → ℤ → Str → Result {0, 0} ClientFault Unit
  upload host port session_id file_id token size body = do
    resp ← exchange (
        post_request
          (base_url host port
            ++ (codes "/upload?"
                ++ query web.query_escape (
                    (codes "fileId", file_id)
                    ∷ (codes "sessionId", session_id)
                    ∷ (codes "token", token)
                    ∷ [])))
          (codes "application/octet-stream") body size)
    if resp.status == 200 then ok tt else err (status_error resp)

  -- Cancel
  unfoldable pub cancel : Str → ℤ → Str → Result {0, 0} ClientFault Unit
  cancel host port session_id = do
    resp ← exchange (
        post_request
          (base_url host port
            ++ (codes "/cancel?" ++ query web.query_escape ((codes "sessionId", session_id) ∷ [])))
          [] [] (pos 0))
    if resp.status / 100 == 2 then ok tt else err (status_error resp)
