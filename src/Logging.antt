-- ===== src/Logging.antt =====
-- internal/logging/redact.go: the redaction of registered values. A value of an attribute that is no
-- string, no group and no LogValuer stands as two texts: what `Value.String` renders, and what the
-- handler behind prints when it is handed the value itself. They differ for a []byte or a
-- TextMarshaler. The handler behind is what it was handed, in order.
pub mod Absence
pub mod Scrubbing
pub mod Safety
pub mod Registering
use keymaker.Prelude.{
  ℕ, zero, suc, ◌-◌, Bool, true, false, ◌||◌, List, [], ◌∷◌, ◌++◌, map, ◌==◌, nat_equality,
  list_equality, if◌then◌else◌, any, length,
}
use keymaker.Text.{Text, text, has_prefix}

unfoldable pub placeholder : Text
placeholder = text "[redacted]"

-- `strings.ReplaceAll` of a text that is not empty; the first argument counts the characters of a
-- match that are left out.
unfoldable pub replace_all : ℕ → Text → Text → Text → Text
replace_all n old new [] = []
replace_all (suc n) old new (c ∷ s) = replace_all n old new s
replace_all zero old new (c ∷ s) = elim (has_prefix (c ∷ s) old) [
  | true ↦ new ++ replace_all (length old - 1) old new s
  | false ↦ c ∷ replace_all zero old new s
]

pub record Redactor : Type 0 where
  pub secrets : List Text

unfoldable pub known : List Text → Text → Bool
known secrets secret = any (λ s. s == secret) secrets

unfoldable pub add_one : Text → List Text → List Text
unfolding known
add_one secret secrets =
    if secret == [] || known secrets secret then secrets else secrets ++ (secret ∷ [])

unfoldable pub add_all : List Text → List Text → List Text
unfolding add_one
add_all [] secrets = secrets
add_all (secret ∷ more) secrets = add_all more (add_one secret secrets)

-- `Redactor.Add`
unfoldable pub add : List Text → Redactor → Redactor
unfolding add_all
add more r = record { secrets = add_all more r.secrets }

unfoldable pub scrub_each : List Text → Text → Text
unfolding replace_all placeholder
scrub_each [] s = s
scrub_each (secret ∷ secrets) s = scrub_each secrets (replace_all 0 secret placeholder s)

-- `Redactor.Scrub`
unfoldable pub scrub : Redactor → Text → Text
unfolding scrub_each
scrub r s = scrub_each r.secrets s

mutual
  -- A `valuer` is a LogValuer, with the value it resolves to.
  pub data Value : Type 0 where
    string : Text → Value
    other : (rendered printed : Text) → Value
    valuer : Value → Value
    group : Attrs → Value

  pub data Attrs : Type 0 where
    nil : Attrs
    attr : Text → Value → Attrs → Attrs

-- The end of `handler.scrub`: the value itself where its rendering holds no secret.
unfoldable pub kept_or : Text → Value → Text → Value
kept_or rendered value clean = if clean == rendered then value else string clean

unfoldable mutual
  unfolding kept_or

  -- `handler.scrub`, on the value and on a list of attributes.
  pub scrub_value : Redactor → Value → Value
  scrub_value r (string s) = kept_or s (string s) (scrub r s)
  scrub_value r (other rendered printed) =
      kept_or rendered (other rendered printed) (scrub r rendered)
  scrub_value r (valuer v) = scrub_value r v
  scrub_value r (group attrs) = group (scrub_attrs r attrs)

  pub scrub_attrs : Redactor → Attrs → Attrs
  scrub_attrs r nil = nil
  scrub_attrs r (attr key value attrs) =
      attr (scrub r key) (scrub_value r value) (scrub_attrs r attrs)

-- What the handler behind is handed.
pub data Handed : Type 0 where
  message : Text → Attrs → Handed
  attributes : Attrs → Handed
  group_name : Text → Handed

pub record Handler : Type 0 where
  pub next : List Handed
  pub redactor : Redactor

unfoldable pub hand : Handed → Handler → Handler
hand x h = record { next = h.next ++ (x ∷ []); redactor = h.redactor }

unfoldable pub handle : Text → Attrs → Handler → Handler
unfolding hand scrub scrub_attrs
handle m attrs h = hand (message (scrub h.redactor m) (scrub_attrs h.redactor attrs)) h

unfoldable pub with_attrs : Attrs → Handler → Handler
unfolding hand scrub_attrs
with_attrs attrs h = hand (attributes (scrub_attrs h.redactor attrs)) h

unfoldable pub with_group : Text → Handler → Handler
unfolding hand scrub
with_group name h = hand (group_name (scrub h.redactor name)) h

-- What the program does with a handler, and what becomes of the handler.
pub data Activity : Type 0 where
  log : Text → Attrs → Activity
  set_attrs : Attrs → Activity
  set_group : Text → Activity

unfoldable pub operate : List Activity → Handler → Handler
unfolding handle with_attrs with_group
operate [] h = h
operate (log m attrs ∷ ops) h = operate ops (handle m attrs h)
operate (set_attrs attrs ∷ ops) h = operate ops (with_attrs attrs h)
operate (set_group name ∷ ops) h = operate ops (with_group name h)

abbrev pub new_handler : Redactor → Handler
new_handler r = record { next = []; redactor = r }
