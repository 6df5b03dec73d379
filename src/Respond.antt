-- ===== src/Respond.antt =====
-- ctx_response.go, sse.go (`SSE`): the calls of a Ctx that write a response, as handlers that end with
-- them. json.Marshal's result is an argument.
use rice_http.Prelude.{
  ℕ, ℤ, pos, negsuc, Bytes, codes, bytes_eq, Option, none, some, [], if◌then◌else◌,
}
use rice_http.Errors.{Err, other_value, Response, text_plain}
use rice_http.Request.{Prog, ret, fail, throw, write, stream}

abbrev pub application_json : Bytes
application_json = codes "application/json"

abbrev pub with_header : Bytes → Bytes → Response → Response
with_header key value r = record r {
  header = λ k. if bytes_eq k key then some value else r.header k;
}

module _ {V : Type 0} where
  -- `Status`, `SetHeader`, `SetContentType`, in front of what the handler does next
  unfoldable pub status : ℤ → Prog V → Prog V
  status code k = write (λ r. record r { status = code }) k

  unfoldable pub set_header : Bytes → Bytes → Prog V → Prog V
  set_header key value k = write (with_header key value) k

  unfoldable pub set_content_type : Bytes → Prog V → Prog V
  set_content_type value k = write (λ r. record r { content_type = value }) k

  -- `String`, `Bytes` and `NoContent`
  unfoldable pub string : ℤ → Bytes → Prog V
  string code s = write (λ r. record r { status = code; content_type = text_plain; body = s }) ret

  unfoldable pub bytes : ℤ → Bytes → Prog V
  bytes code b = write (λ r. record r { status = code; body = b }) ret

  unfoldable pub no_content : ℤ → Prog V
  no_content code = write (λ r. record r { status = code; content_type = []; body = [] }) ret

  -- `JSON`: the encoded value, or the encoder's error.
  unfoldable pub json : ℤ → Err → Option Bytes → Prog V
  json code err none = fail err
  json code err (some b) =
      write (λ r. record r { status = code; content_type = application_json; body = b }) ret

  unfoldable pub sse : ℤ → Option ℕ → Prog V
  sse (negsuc n) fn =
      throw (other_value (codes "rice: SSE heartbeat is negative; use 0 to disable it"))
  sse (pos n) none = throw (other_value (codes "rice: Stream or SSE callback is nil"))
  sse (pos n) (some fn) =
      write
        (λ r.
          with_header (codes "Cache-Control") (codes "no-cache")
            (record r { content_type = codes "text/event-stream" }))
        (stream n (some fn) ret)
