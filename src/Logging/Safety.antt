-- ===== src/Logging/Safety.antt =====
-- internal/logging/redact.go: nothing that reaches the handler behind holds a registered value.
use keymaker.Prelude.{
  none, List, [], ◌∷◌, ◌≡◌, inl, inr, sym, subst, ◌==◌, nat_equality, list_equality, list_beq_iff,
  Bool-cases, refl, here, there, In, In-append_cases, In-single,
}
use keymaker.Text.{Text, index}
use keymaker.Logging.{
  Redactor, scrub, Value, string, other, valuer, group, Attrs, nil, attr, kept_or, scrub_value,
  scrub_attrs, Handed, message, attributes, group_name, Handler, hand, handle, Activity, log,
  set_attrs, set_group, operate, with_attrs, with_group,
}
use keymaker.Logging.Absence.{Absent_iff}
use keymaker.Logging.Scrubbing.{ArePlain, Absent-scrub_each}

-- No registered value occurs in the text.
abbrev pub IsClean : Redactor → Text → Type 0
IsClean r t = (s : Text) → In s r.secrets → index t s ≡ none

mutual
  pub CleanValue : Redactor → Value → Type 0
  CleanValue r (string s) = IsClean r s
  CleanValue r (other rendered printed) = IsClean r printed
  CleanValue r (valuer v) = ⊥
  CleanValue r (group attrs) = CleanAttrs r attrs

  pub CleanAttrs : Redactor → Attrs → Type 0
  CleanAttrs r nil = Unit
  CleanAttrs r (attr key value attrs) = IsClean r key × CleanValue r value × CleanAttrs r attrs

-- Of a value whose rendering holds no registered value, the handler behind prints none either.
unfoldable mutual
  pub ShowsValue : Redactor → Value → Type 0
  ShowsValue r (string s) = Unit
  ShowsValue r (other rendered printed) = IsClean r rendered → IsClean r printed
  ShowsValue r (valuer v) = ShowsValue r v
  ShowsValue r (group attrs) = ShowsAttrs r attrs

  pub ShowsAttrs : Redactor → Attrs → Type 0
  ShowsAttrs r nil = Unit
  ShowsAttrs r (attr key value attrs) = ShowsValue r value × ShowsAttrs r attrs

abbrev pub ShowsActivity : Redactor → Activity → Type 0
ShowsActivity r (log m attrs) = ShowsAttrs r attrs
ShowsActivity r (set_attrs attrs) = ShowsAttrs r attrs
ShowsActivity r (set_group name) = Unit

abbrev pub ShowAll : Redactor → List Activity → Type 0
ShowAll r ops = (a : Activity) → In a ops → ShowsActivity r a

abbrev pub CleanHanded : Redactor → Handed → Type 0
CleanHanded r (message m attrs) = IsClean r m × CleanAttrs r attrs
CleanHanded r (attributes attrs) = CleanAttrs r attrs
CleanHanded r (group_name name) = IsClean r name

module _ (r : Redactor) (plain : ArePlain r.secrets) where
  scrub-IsClean : (t : Text) → IsClean r (scrub r t)
  unfolding scrub
  scrub-IsClean t s m = (Absent_iff s (scrub r t)).1 (Absent-scrub_each r.secrets t m (plain s m))

  kept_or-string : (s clean : Text) → IsClean r clean → CleanValue r (kept_or s (string s) clean)
  unfolding kept_or CleanValue
  kept_or-string s clean c = elim (Bool-cases (clean == s)) [
    | inl same ↦ rw same (subst (IsClean r) ((list_beq_iff clean s).0 same) c)
    | inr differs ↦ rw differs c
  ]

  kept_or-other :
      (s printed clean : Text)
      → IsClean r clean
      → (IsClean r s → IsClean r printed)
      → CleanValue r (kept_or s (other s printed) clean)
  unfolding kept_or CleanValue
  kept_or-other s printed clean c shows = elim (Bool-cases (clean == s)) [
    | inl same ↦ rw same (shows (subst (IsClean r) ((list_beq_iff clean s).0 same) c))
    | inr differs ↦ rw differs c
  ]

  mutual
    unfolding scrub_value CleanValue ShowsValue

    scrub_value-Clean : (v : Value) → ShowsValue r v → CleanValue r (scrub_value r v)
    scrub_value-Clean (string s) shows = kept_or-string s (scrub r s) (scrub-IsClean s)
    scrub_value-Clean (other s printed) shows =
        kept_or-other s printed (scrub r s) (scrub-IsClean s) shows
    scrub_value-Clean (valuer v) shows = scrub_value-Clean v shows
    scrub_value-Clean (group attrs) shows = scrub_attrs-Clean attrs shows

    scrub_attrs-Clean : (attrs : Attrs) → ShowsAttrs r attrs → CleanAttrs r (scrub_attrs r attrs)
    scrub_attrs-Clean nil shows = tt
    scrub_attrs-Clean (attr key value attrs) (one, rest) =
        (scrub-IsClean key, scrub_value-Clean value one, scrub_attrs-Clean attrs rest)

  -- Everything handed on so far is clean.
  abbrev pub HandsClean : Handler → Type 0
  HandsClean h = (h.redactor ≡ r) × ((x : Handed) → In x h.next → CleanHanded r x)

  hand-HandsClean :
      (x : Handed) (h : Handler) → CleanHanded r x → HandsClean h → HandsClean (hand x h)
  unfolding hand
  hand-HandsClean x h c (same, clean) = (
    same,
    λ y m. elim (In-append_cases h.next m) [
      | inl before ↦ clean y before
      | inr last ↦ subst (CleanHanded r) (sym (In-single last)) c
    ],
  )

  handle-HandsClean :
      (m : Text) (attrs : Attrs) (h : Handler)
      → ShowsAttrs r attrs
      → HandsClean h
      → HandsClean (handle m attrs h)
  unfolding handle
  handle-HandsClean m attrs h shows (same, clean) =
      hand-HandsClean (message (scrub h.redactor m) (scrub_attrs h.redactor attrs)) h
        (rw same (scrub-IsClean m, scrub_attrs-Clean attrs shows)) (same, clean)

  with_attrs-HandsClean :
      (attrs : Attrs) (h : Handler)
      → ShowsAttrs r attrs
      → HandsClean h
      → HandsClean (with_attrs attrs h)
  unfolding with_attrs
  with_attrs-HandsClean attrs h shows (same, clean) =
      hand-HandsClean (attributes (scrub_attrs h.redactor attrs)) h
        (rw same (scrub_attrs-Clean attrs shows)) (same, clean)

  with_group-HandsClean :
      (name : Text) (h : Handler) → HandsClean h → HandsClean (with_group name h)
  unfolding with_group
  with_group-HandsClean name h (same, clean) =
      hand-HandsClean (group_name (scrub h.redactor name)) h (rw same (scrub-IsClean name))
        (same, clean)

  pub operate-HandsClean :
      (ops : List Activity) (h : Handler)
      → ShowAll r ops
      → HandsClean h
      → HandsClean (operate ops h)
  unfolding operate
  operate-HandsClean [] h shows c = c
  operate-HandsClean (log m attrs ∷ ops) h shows c =
      operate-HandsClean ops (handle m attrs h) (λ a m. shows a (there m))
        (handle-HandsClean m attrs h (shows _ (here refl)) c)
  operate-HandsClean (set_attrs attrs ∷ ops) h shows c =
      operate-HandsClean ops (with_attrs attrs h) (λ a m. shows a (there m))
        (with_attrs-HandsClean attrs h (shows _ (here refl)) c)
  operate-HandsClean (set_group name ∷ ops) h shows c =
      operate-HandsClean ops (with_group name h) (λ a m. shows a (there m))
        (with_group-HandsClean name h c)
