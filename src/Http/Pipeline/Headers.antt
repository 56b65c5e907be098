-- ===== src/Http/Pipeline/Headers.antt =====
-- internal/httpapi/server.go: the headers that every answer goes out with, and the log of it.
use keymaker.Prelude.{
  ℕ, Bool, true, false, not, Option, none, some, List, [], ◌∷◌, ◌≡◌, refl, ap, sym, ◌∙◌, arith,
  ◌==◌, nat_equality, list_equality, if◌then◌else◌, Bool-cases, inl, inr, all, any, eq_of, subst,
}
use keymaker.Text.{Text, text}
use keymaker.Startup.{Level, debug_level}
use keymaker.Http.Access.{Server, Request, authenticate, Outcome, path_of}
use keymaker.Http.Pipeline.{
  Act, set_header, write_header, write_body, content_security_policy, security_headers,
  new_recorder, record_act, record_all, WireState, set, send, is_informational, wire_act, wire_all,
  wire_of, RequestLine, log_requests, serve_http,
}
use keymaker.Http.Pipeline.Recording.{status_first, answer-status}

abbrev pub header_of : Text → List (Text × Text) → Option Text
header_of name [] = none
header_of name ((key, value) ∷ headers) =
    let rest = header_of name headers in if key == name then some value else rest

header_of-set_other :
    (name key value : Text) (headers : List (Text × Text))
    → (key == name) ≡ false
    → header_of name (set key value headers) ≡ header_of name headers
header_of-set_other name key value [] h = rw h refl
header_of-set_other name key value ((k, old) ∷ headers) h = elim (Bool-cases (k == key)) [
  | inl same ↦
      let e = eq_of k key same in let h' = ap (λ t. t == name) e ∙ h in rw (same, h, h') refl
  | inr differs ↦ elim (Bool-cases (k == name)) [
    | inl hit ↦ rw (differs, hit) refl
    | inr miss ↦ rw (differs, miss) (header_of-set_other name key value headers h)
  ]
]

abbrev pub sets : Text → Act → Bool
sets name (set_header key value) = key == name
sets name (write_header code) = false
sets name (write_body body) = false

module _ (name value : Text) where
  -- The header is set, and went out with what has been sent.
  abbrev Sent : Option ℕ → List (Text × Text) → Type 0
  Sent none headers = Unit
  Sent (some code) headers = header_of name headers ≡ some value

  abbrev Carries : WireState → Type 0
  Carries w = (header_of name w.headers ≡ some value) × Sent w.sent w.sent_headers

  send-Carries : (c : ℕ) (o : Option ℕ) (w : WireState) → Carries w → Carries (send c o w)
  send-Carries c none w h = (h.0, h.0)
  send-Carries c (some x) w h = h

  wire_act-Carries :
      (act : Act) (w : WireState) → sets name act ≡ false → Carries w → Carries (wire_act act w)
  unfolding wire_act
  wire_act-Carries (set_header key v) w other h =
      (header_of-set_other name key v w.headers other ∙ h.0, h.1)
  wire_act-Carries (write_header c) w other h = by (is_informational c)
    where
      by : (b : Bool) → Carries (if b then w else send c w.sent w)
      by true = h
      by false = send-Carries c w.sent w h
  wire_act-Carries (write_body b) w other h = send-Carries 200 w.sent w h

  wire_all-Carries :
      (acts : List Act) (w : WireState)
      → any (sets name) acts ≡ false
      → Carries w
      → Carries (wire_all acts w)
  unfolding wire_all
  wire_all-Carries [] w others h = h
  wire_all-Carries (act ∷ acts) w others h =
      wire_all-Carries acts (wire_act act w) (ground arith)
        (wire_act-Carries act w (ground arith) h)

  Carries-sent :
      (w : WireState) → Carries w → header_of name (send 200 w.sent w).sent_headers ≡ some value
  Carries-sent w h = by w.sent h.1
    where
      by :
          (o : Option ℕ)
          → Sent o w.sent_headers
          → header_of name (send 200 o w).sent_headers ≡ some value
      by none s = h.0
      by (some c) s = s

-- The headers that every answer has.
abbrev pub fixed_headers : List (Text × Text)
fixed_headers =
    (text "Content-Security-Policy", content_security_policy)
    ∷ (text "X-Content-Type-Options", text "nosniff")
    ∷ (text "Referrer-Policy", text "no-referrer")
    ∷ (text "X-Frame-Options", text "DENY")
    ∷ []

abbrev pub leaves_fixed : List Act → Bool
leaves_fixed acts = all (λ (h : Text × Text). not (any (sets h.0) acts)) fixed_headers

abbrev pub AreSent : List (Text × Text) → List (Text × Text) → Type 0
AreSent [] headers = Unit
AreSent ((name, value) ∷ fixed) headers =
    (header_of name headers ≡ some value) × AreSent fixed headers

abbrev ready : WireState
ready = record { headers = fixed_headers; sent = none; sent_headers = [] }

wire_of-secured :
    (acts : List Act)
    → wire_of (security_headers acts) ≡ (let w = wire_all acts ready in send 200 w.sent w)
unfolding wire_of security_headers wire_all wire_act
wire_of-secured acts = refl

wire_of-AreSent :
    (acts : List Act)
    → leaves_fixed acts ≡ true
    → AreSent fixed_headers (wire_of (security_headers acts)).sent_headers
wire_of-AreSent acts h =
    subst (λ w. AreSent fixed_headers w.sent_headers) (sym (wire_of-secured acts))
      ((
        by (text "Content-Security-Policy") content_security_policy (ground arith) refl,
        (
          by (text "X-Content-Type-Options") (text "nosniff") (ground arith) refl,
          (
            by (text "Referrer-Policy") (text "no-referrer") (ground arith) refl,
            (by (text "X-Frame-Options") (text "DENY") (ground arith) refl, tt),
          ),
        ),
      ))
  where
    by :
        (name value : Text)
        → any (sets name) acts ≡ false
        → header_of name fixed_headers ≡ some value
        → header_of name (send 200 (wire_all acts ready).sent (wire_all acts ready)).sent_headers
          ≡ some value
    by name value alone h' =
        Carries-sent name value (wire_all acts ready)
          (wire_all-Carries name value acts ready alone (h', tt))

wire_of-status :
    (acts : List Act)
    → status_first acts ≡ true
    → (wire_of (security_headers acts)).sent
      ≡ some (record_all (security_headers acts) new_recorder).status
unfolding security_headers record_all record_act
wire_of-status acts h = ap (λ w. w.sent) (wire_of-secured acts) ∙ answer-status acts ready refl h

logged_status :
    (level : Level) (r : Request) (acts : List Act) (line : RequestLine)
    → log_requests level r acts ≡ some line
    → (line.status ≡ (record_all acts new_recorder).status) × (line.path ≡ path_of r)
unfolding log_requests
logged_status debug_level r acts line h =
    (sym (ap (λ l. l.status) (same h)), sym (ap (λ l. l.path) (same h)))
  where
    same : {a b : RequestLine} → some a ≡ some b → a ≡ b
    same e = cc e
logged_status Level.info_level r acts line h = cc h
logged_status Level.warn_level r acts line h = cc h
logged_status Level.error_level r acts line h = cc h

-- Around a handler that sets none of the four fixed headers itself, each of them goes out with the
-- answer, whatever the request met in front of the handler. Where the handler names its status, a
-- final one, before its body or names none, the status in the log of the request is the one sent; and
-- the log has the path of the request without its query.
pub serve_http-Answers :
    (handle : Outcome → List Act) (level : Level) (s : Server) (r : Request)
    → let (w, line) = serve_http handle level s r in
      let acts = handle (authenticate s r) in
      (leaves_fixed acts ≡ true → AreSent fixed_headers w.sent_headers)
      × (status_first acts ≡ true
          → (l : RequestLine) → line ≡ some l
          → (w.sent ≡ some l.status) × (l.path ≡ path_of r))
unfolding serve_http
serve_http-Answers handle level s r =
    let acts = handle (authenticate s r) in
    (
      wire_of-AreSent acts,
      λ first l e.
          let (status, path) = logged_status level r (security_headers acts) l e in
          (wire_of-status acts first ∙ ap some (sym status), path),
    )
