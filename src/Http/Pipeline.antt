-- ===== src/Http/Pipeline.antt =====
-- internal/httpapi/server.go: what stands around every answer, the fixed headers and the log of
-- requests. A handler is the sequence of what it does with its ResponseWriter; net/http sends the
-- first final status, the informational ones before it, and 200 with a body that comes first.
pub mod Recording
pub mod Headers
use keymaker.Prelude.{
  ℕ, Bool, true, false, ◌&&◌, ◌||◌, Option, none, some, List, [], ◌∷◌, ◌++◌, ◌==◌, nat_equality,
  list_equality, leb, ltb, if◌then◌else◌,
}
use keymaker.Text.{Text, text}
use keymaker.Startup.{Level, debug_level}
use keymaker.Http.Access.{Server, Request, authenticate, Outcome, path_of}

pub data Act : Type 0 where
  set_header : Text → Text → Act
  write_header : ℕ → Act
  write_body : Text → Act

abbrev pub content_security_policy : Text
content_security_policy =
    text "default-src 'none'; "
    ++ (text "script-src 'self'; "
        ++ (text "style-src 'self'; "
            ++ (text "img-src 'self' data:; "
                ++ (text "connect-src 'self'; "
                    ++ (text "base-uri 'none'; "
                        ++ (text "form-action 'none'; " ++ text "frame-ancestors 'none'"))))))

-- `health`
abbrev pub health_acts : List Act
health_acts =
    set_header (text "Content-Type") (text "text/plain; charset=utf-8")
    ∷ set_header (text "Cache-Control") (text "no-store")
    ∷ write_body (text "ok" ++ (10 ∷ []))
    ∷ []

-- `securityHeaders`
unfoldable pub security_headers : List Act → List Act
security_headers acts =
    set_header (text "Content-Security-Policy") content_security_policy
    ∷ set_header (text "X-Content-Type-Options") (text "nosniff")
    ∷ set_header (text "Referrer-Policy") (text "no-referrer")
    ∷ set_header (text "X-Frame-Options") (text "DENY")
    ∷ acts

pub record StatusRecorder : Type 0 where
  pub status : ℕ
  pub written : Bool

abbrev pub new_recorder : StatusRecorder
new_recorder = record { status = 200; written = false }

-- `statusRecorder.WriteHeader`; the other calls go to the writer behind it.
unfoldable pub record_act : Act → StatusRecorder → StatusRecorder
record_act (write_header code) r = if r.written then r else record { status = code; written = true }
record_act (set_header name value) r = r
record_act (write_body body) r = r

unfoldable pub record_all : List Act → StatusRecorder → StatusRecorder
unfolding record_act
record_all [] r = r
record_all (act ∷ acts) r = record_all acts (record_act act r)

-- What net/http has sent: the headers as they are set before the first final status goes out, and
-- that status.
pub record WireState : Type 0 where
  pub headers : List (Text × Text)
  pub sent : Option ℕ
  pub sent_headers : List (Text × Text)

abbrev pub new_wire : WireState
new_wire = record { headers = []; sent = none; sent_headers = [] }

abbrev pub set : Text → Text → List (Text × Text) → List (Text × Text)
set name value [] = (name, value) ∷ []
set name value ((key, old) ∷ headers) =
    let rest = set name value headers in
    if key == name then (name, value) ∷ headers else (key, old) ∷ rest

abbrev pub send : ℕ → Option ℕ → WireState → WireState
send code (some already) w = w
send code none w = record { headers = w.headers; sent = some code; sent_headers = w.headers }

abbrev pub is_informational : ℕ → Bool
is_informational code = leb 100 code && leb code 199

unfoldable pub wire_act : Act → WireState → WireState
wire_act (set_header name value) w = record w { headers = set name value w.headers }
wire_act (write_header code) w = if is_informational code then w else send code w.sent w
wire_act (write_body body) w = send 200 w.sent w

unfoldable pub wire_all : List Act → WireState → WireState
unfolding wire_act
wire_all [] w = w
wire_all (act ∷ acts) w = wire_all acts (wire_act act w)

-- At the end of a handler that sent nothing, net/http sends 200.
unfoldable pub wire_of : List Act → WireState
unfolding wire_all
wire_of acts = let w = wire_all acts new_wire in send 200 w.sent w

-- A line of the log of requests; the duration is left out.
pub record RequestLine : Type 0 where
  pub method : Text
  pub path : Text
  pub status : ℕ

abbrev is_debug : Level → Bool
is_debug debug_level = true
is_debug _ = false

-- `logRequests`, around a handler.
unfoldable pub log_requests : Level → Request → List Act → Option RequestLine
unfolding record_all
log_requests level r acts =
    if is_debug level
    then some (record {
      method = r.method;
      path = path_of r;
      status = (record_all acts new_recorder).status;
    })
    else none

-- The handler that `New` returns, where `handle` is what each outcome does.
unfoldable pub serve_http :
    (Outcome → List Act) → Level → Server → Request → WireState × Option RequestLine
unfolding security_headers wire_of log_requests
serve_http handle level s r =
    let acts = security_headers (handle (authenticate s r)) in
    (wire_of acts, log_requests level r acts)
