-- ===== src/Tests/Secrets.antt =====
-- The redaction of a log.
use keymaker.Prelude.{List, [], ◌∷◌, ◌≡◌, ◌≢◌, refl, sym, subst, In, here, there}
use keymaker.Text.{Text, text, index, has_prefix}
use keymaker.Logging.{
  string, other, nil, attr, Handed, Activity, log, set_group, placeholder, replace_all, add,
  new_handler, operate, Redactor, scrub, scrub_each, scrub_value,
}
use keymaker.Logging.Absence.{Absent_iff}
use keymaker.Logging.Scrubbing.{IsPlain}
use keymaker.Logging.Safety.{CleanHanded, ShowsValue, ShowsActivity, ShowAll}
use keymaker.Logging.Registering.{nothing_registered, operate-Clean}

abbrev secret : Text
secret = text "ck-1"

abbrev secrets : List Text
secrets = secret ∷ [] ∷ []

abbrev operations : List Activity
operations =
    set_group (text "ck-1")
    ∷ log (text "key ck-1ck-1") (
        attr (text "k") (string (text "ck-1")) (
          attr (text "n") (other (text "7") (text "7"))
            (attr (text "url") (other (text "/ck-1") (text "/ck-1")) nil)))
    ∷ []

scrubs_twice : replace_all 0 (text "aa") placeholder (text "xaaay") ≡ text "x[redacted]ay"
unfolding replace_all placeholder has_prefix
scrubs_twice = refl

secret-IsPlain : IsPlain secret
unfolding index has_prefix
secret-IsPlain = record {
  filled = λ e. cc;
  opens = refl;
  closes = refl;
  apart = (Absent_iff secret (text "redacted")).0 refl;
}

secrets-IsPlain : (s : Text) → In s secrets → s ≢ [] → IsPlain s
secrets-IsPlain s (here e) ne = subst IsPlain (sym e) secret-IsPlain
secrets-IsPlain s (there (here e)) ne = absurd (ne e)
secrets-IsPlain s (there (there m)) ne = elim m [ ]

operations-ShowAll : (r : Redactor) → ShowAll r operations
unfolding ShowsValue
operations-ShowAll r a (here e) = subst (ShowsActivity r) (sym e) tt
operations-ShowAll r a (there (here e)) =
    subst (ShowsActivity r) (sym e) (tt, ((λ clean. clean), ((λ clean. clean), tt)))
operations-ShowAll r a (there (there m)) = elim m [ ]

-- A []byte that holds a secret: its rendering as a list of numbers is clean, so it is handed on.
bytes_leak :
    scrub_value (record { secrets = secret ∷ [] }) (other (text "[99 107 45 49]") secret)
    ≡ other (text "[99 107 45 49]") secret
unfolding scrub_value scrub scrub_each replace_all has_prefix placeholder
bytes_leak = refl

operate-Clean_example :
    let r = add secrets nothing_registered in
    ((s : Text) → In s secrets → s ≢ [] → In s r.secrets)
    × ((x : Handed) → In x (operate operations (new_handler r)).next → CleanHanded r x)
operate-Clean_example =
    operate-Clean secrets operations secrets-IsPlain
      (operations-ShowAll (add secrets nothing_registered))
