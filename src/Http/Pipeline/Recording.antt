-- ===== src/Http/Pipeline/Recording.antt =====
-- internal/httpapi/server.go: the status that is logged of an answer is the one sent.
use keymaker.Prelude.{
  ℕ, Bool, true, false, not, Option, none, some, List, [], ◌∷◌, ◌≡◌, refl, ap, sym, ◌∙◌, arith,
  nat_equality, list_equality, if◌then◌else◌,
}
use keymaker.Http.Pipeline.{
  Act, set_header, write_header, write_body, new_recorder, record_act, record_all, WireState, send,
  is_informational, wire_act, wire_all,
}

-- The handler names its status before it writes a body, and names no informational one; or it names
-- none at all.
abbrev pub names_no_status : List Act → Bool
names_no_status [] = true
names_no_status (write_header code ∷ acts) = false
names_no_status (set_header name value ∷ acts) = names_no_status acts
names_no_status (write_body body ∷ acts) = names_no_status acts

abbrev pub status_first : List Act → Bool
status_first [] = true
status_first (set_header name value ∷ acts) = status_first acts
status_first (write_header code ∷ acts) = not (is_informational code)
status_first (write_body body ∷ acts) = names_no_status acts

record_written :
    (acts : List Act) (code : ℕ)
    → (record_all acts (record { status = code; written = true })).status ≡ code
unfolding record_all record_act
record_written [] code = refl
record_written (set_header n v ∷ acts) code = record_written acts code
record_written (write_header c ∷ acts) code = record_written acts code
record_written (write_body b ∷ acts) code = record_written acts code

record_unnamed :
    (acts : List Act) → names_no_status acts ≡ true → (record_all acts new_recorder).status ≡ 200
unfolding record_all record_act
record_unnamed [] h = refl
record_unnamed (set_header n v ∷ acts) h = record_unnamed acts h
record_unnamed (write_header c ∷ acts) h = cc h
record_unnamed (write_body b ∷ acts) h = record_unnamed acts h

send_kept :
    (c : ℕ) (o : Option ℕ) (w : WireState) (code : ℕ)
    → o ≡ some code
    → w.sent ≡ some code
    → (send c o w).sent ≡ some code
send_kept c none w code h k = cc h
send_kept c (some x) w code h k = k

send_first : (c : ℕ) (o : Option ℕ) (w : WireState) → o ≡ none → (send c o w).sent ≡ some c
send_first c none w h = refl
send_first c (some x) w h = cc h

unless_early :
    (b : Bool) (v w : WireState) (o : Option ℕ)
    → v.sent ≡ o
    → w.sent ≡ o
    → (if b then v else w).sent ≡ o
unless_early true v w o h k = h
unless_early false v w o h k = k

-- What has been sent stays.
wire_kept :
    (act : Act) (w : WireState) (code : ℕ) → w.sent ≡ some code → (wire_act act w).sent ≡ some code
unfolding wire_act
wire_kept (set_header n v) w code h = h
wire_kept (write_header c) w code h =
    unless_early (is_informational c) w (send c w.sent w) (some code) h
      (send_kept c w.sent w code h h)
wire_kept (write_body b) w code h = send_kept 200 w.sent w code h h

wire_sent :
    (acts : List Act) (w : WireState) (code : ℕ)
    → w.sent ≡ some code
    → (wire_all acts w).sent ≡ some code
unfolding wire_all
wire_sent [] w code h = h
wire_sent (act ∷ acts) w code h = wire_sent acts (wire_act act w) code (wire_kept act w code h)

wire_final :
    (c : ℕ) (w : WireState)
    → is_informational c ≡ false
    → w.sent ≡ none
    → (wire_act (write_header c) w).sent ≡ some c
unfolding wire_act
wire_final c w final h =
    ap (λ b. (if b then w else send c w.sent w).sent) final ∙ send_first c w.sent w h

abbrev FinalStatus : WireState → ℕ → Type 0
FinalStatus w code = (send 200 w.sent w).sent ≡ some code

sent_final : (w : WireState) (code : ℕ) → w.sent ≡ some code → FinalStatus w code
sent_final w code h = by w.sent h
  where
    by : (o : Option ℕ) → o ≡ some code → (send 200 o w).sent ≡ some code
    by none k = cc k
    by (some c) k = h

final_of : (b : Bool) → not b ≡ true → b ≡ false
final_of b h = ground arith

pub answer-status :
    (acts : List Act) (w : WireState)
    → w.sent ≡ none
    → status_first acts ≡ true
    → FinalStatus (wire_all acts w) (record_all acts new_recorder).status
unfolding wire_all record_all record_act
answer-status [] w h first = send_first 200 w.sent w h
answer-status (set_header n v ∷ acts) w h first =
    answer-status acts (wire_act (set_header n v) w) (unfold wire_act in h) first
answer-status (write_header c ∷ acts) w h first =
    let final = final_of (is_informational c) first in
    sent_final (wire_all acts (wire_act (write_header c) w)) _ (
      wire_sent acts (wire_act (write_header c) w) c (wire_final c w final h)
      ∙ ap some (sym (record_written acts c)))
answer-status (write_body b ∷ acts) w h first =
    sent_final (wire_all acts (wire_act (write_body b) w)) _ (
      wire_sent acts (wire_act (write_body b) w) 200 (unfold wire_act in send_first 200 w.sent w h)
      ∙ ap some (sym (record_unnamed acts first)))
