-- ===== src/Testutil.antt =====
-- internal/testutil/mock_upstream.go: the upstream that stands for the providers in tests. The
-- server around it is net/http/httptest's, and ServeMux and encoding/json are parameters.
pub mod Recorded
pub mod Counted
pub mod Tests
use reelm.Base.{
  ℕ, suc, ◌+◌, ◌-◌, ◌/◌, ◌%◌, Bool, true, false, Option, none, some, List, [], ◌∷◌, ◌++◌, Text,
  codes, contains, decimal, ltb, if◌then◌else◌,
}
use reelm.Base.Int.{ℤ, pos, negsuc}
use reelm.Hasher.{Json, bool, num, str, arr, obj, Items, nil, cons, Fields, end, field}
use reelm.Http.{Request}
use reelm.Http.Writer.{
  ResponseWriter, log, sleep, write_header, write_text, flush_writer, set_header,
}
use reelm.Providers.Shared.{field_of, or_text, text_or_empty}
use reelm.Streaming.Recorder.{flush_client}

-- MockUpstream: the URL of its server, and the 64 bits of callCount
pub record MockUpstream : Type 0 where
  pub url : Text
  pub call_count : ℕ

abbrev pub word : ℕ
word = 18446744073709551616

-- atomic.AddInt64(&m.callCount, 1)
unfoldable pub count_call : MockUpstream → MockUpstream
count_call m = record m { call_count = (m.call_count + 1) % word }

-- CallCount, the int64 that the bits are
unfoldable pub call_count : MockUpstream → ℤ
call_count m =
    if ltb m.call_count 9223372036854775808
    then pos m.call_count
    else negsuc (word - 1 - m.call_count)

-- The routes of the mux
pub data Endpoint : Type 0 where
  chat messages models : Endpoint

abbrev pub routes : List (Text × Endpoint)
routes =
    (codes "/v1/chat/completions", chat)
    ∷ (codes "/v1/messages", messages)
    ∷ (codes "/v1beta/models/", models)
    ∷ []

-- What a call needs from outside: the clock's readings, the map that the decoder leaves for a body
-- (its error is dropped), an encoder, and the mux, with its answer where no pattern fits.
pub record Outside : Type 0 where
  pub clock : ℕ → ℕ
  pub decode : Option Text → Fields
  pub encode : Json → Option Text
  pub find : List (Text × Endpoint) → Text → Option Endpoint
  pub not_found : ResponseWriter → ResponseWriter

abbrev pub bool_or_false : Json → Bool
bool_or_false (bool b) = b
bool_or_false _ = false

-- The loop over the chunks; the errors of the writes are dropped.
unfoldable pub send_chunks : List Text → ResponseWriter → ResponseWriter
send_chunks [] w = w
send_chunks (c ∷ cs) w =
    send_chunks cs (log (sleep 2000000) (flush_client (write_text (c ++ codes "\n\n") w).1))

abbrev pub chat_chunks : List Text
chat_chunks =
    codes
      "data: {\"id\":\"chatcmpl-stream-1\",\"choices\":[{\"delta\":{\"role\":\"assistant\",\"content\":\"Streamed\"}}]}"
    ∷ codes
        "data: {\"id\":\"chatcmpl-stream-2\",\"choices\":[{\"delta\":{\"content\":\" response\"}}]}"
    ∷ codes
        "data: {\"id\":\"chatcmpl-stream-3\",\"choices\":[{\"delta\":{\"content\":\" complete.\"}}]}"
    ∷ codes "data: [DONE]"
    ∷ []

abbrev pub gemini_chunks : List Text
gemini_chunks =
    codes "data: {\"candidates\":[{\"content\":{\"parts\":[{\"text\":\"Gemini\"}]}}]}"
    ∷ codes "data: {\"candidates\":[{\"content\":{\"parts\":[{\"text\":\" stream\"}]}}]}"
    ∷ []

abbrev pub content_type : Text → ResponseWriter → ResponseWriter
content_type t w = set_header (codes "Content-Type") t w

-- json.NewEncoder(w).Encode(resp), after the header
unfoldable pub send_json : Outside → Json → ResponseWriter → ResponseWriter
send_json o resp w =
    let v = write_header 200 (content_type (codes "application/json") w) in
    elim (o.encode resp) [ none ↦ v | some t ↦ (write_text t v).1 ]

abbrev pub single : Fields → Json
single fs = arr (cons (obj fs) nil)

-- The answer of the chat endpoint
abbrev pub chat_response : Outside → Text → Json
chat_response o model = obj (
    field (codes "id") (str (codes "chatcmpl-mock-" ++ decimal (o.clock 0))) (
      field (codes "object") (str (codes "chat.completion")) (
        field (codes "created") (num (decimal (o.clock 1 / 1000000000))) (
          field (codes "model") (str model) (
            field (codes "choices")
              (single (
                field (codes "index") (num (codes "0")) (
                  field (codes "message")
                    (obj (
                      field (codes "role") (str (codes "assistant")) (
                        field (codes "content")
                          (str (codes "This is a deterministic mock completion from mock OpenAI."))
                          end)))
                    (field (codes "finish_reason") (str (codes "stop")) end))))
              (field (codes "usage")
                (obj (
                  field (codes "prompt_tokens") (num (codes "12")) (
                    field (codes "completion_tokens") (num (codes "8"))
                      (field (codes "total_tokens") (num (codes "20")) end))))
                end))))))

abbrev pub chat_stream_headers : ResponseWriter → ResponseWriter
chat_stream_headers w = set_header (codes "Connection") (codes "keep-alive") (
    set_header (codes "Cache-Control") (codes "no-cache")
      (content_type (codes "text/event-stream") w))

-- The handler of /v1/chat/completions, after it has counted the call
unfoldable pub serve_chat : Outside → Request → ResponseWriter → ResponseWriter
serve_chat o r w =
    let body = o.decode r.body in
    if bool_or_false (field_of (codes "stream") body)
    then send_chunks chat_chunks (write_header 200 (chat_stream_headers w))
    else send_json o
        (chat_response o (or_text (text_or_empty (field_of (codes "model") body)) (codes "gpt-4o")))
        w

abbrev pub message_response : Outside → Text → Json
message_response o model = obj (
    field (codes "id") (str (codes "msg_" ++ decimal (o.clock 0))) (
      field (codes "type") (str (codes "message")) (
        field (codes "role") (str (codes "assistant")) (
          field (codes "model") (str model) (
            field (codes "content")
              (single (
                field (codes "type") (str (codes "text"))
                  (field (codes "text") (str (codes "Hello from mock Anthropic Claude!")) end)))
              (field (codes "stop_reason") (str (codes "end_turn")) end))))))

-- The handler of /v1/messages
unfoldable pub serve_messages : Outside → Request → ResponseWriter → ResponseWriter
serve_messages o r w =
    let body = o.decode r.body in
    send_json o
      (message_response o
        (or_text (text_or_empty (field_of (codes "model") body)) (codes "claude-3-5-sonnet")))
      w

abbrev pub gemini_response : Json
gemini_response = obj (
    field (codes "candidates")
      (single (
        field (codes "content")
          (obj (
            field (codes "role") (str (codes "model")) (
              field (codes "parts")
                (single (field (codes "text") (str (codes "Hello from mock Google Gemini!")) end))
                end)))
          (field (codes "finishReason") (str (codes "STOP")) end)))
      end)

-- The handler of /v1beta/models/
unfoldable pub serve_models : Outside → Request → ResponseWriter → ResponseWriter
serve_models o r w =
    if contains r.path (codes ":streamGenerateContent")
    then send_chunks gemini_chunks (write_header 200 (content_type (codes "text/event-stream") w))
    else send_json o gemini_response w

abbrev pub serve_endpoint : Outside → Endpoint → Request → ResponseWriter → ResponseWriter
serve_endpoint o chat r w = serve_chat o r w
serve_endpoint o messages r w = serve_messages o r w
serve_endpoint o models r w = serve_models o r w

abbrev pub dispatched :
    Outside
    → Request
    → Option Endpoint
    → MockUpstream
    → ResponseWriter
    → MockUpstream × ResponseWriter
dispatched o r none m w = (m, o.not_found w)
dispatched o r (some e) m w = (count_call m, serve_endpoint o e r w)

-- A request to the server of NewMockOpenAI
unfoldable pub serve :
    Outside → Request → MockUpstream → ResponseWriter → MockUpstream × ResponseWriter
serve o r m w = dispatched o r (o.find routes r.path) m w
