-- ===== src/Http/Entries.antt =====
-- internal/httpapi/addresses.go: reading a list of addresses as it was typed.
pub mod Restriction
use keymaker.Prelude.{
  ℕ, Bool, true, false, ◌||◌, not, Option, none, some, List, [], ◌∷◌, ◌++◌, ◌==◌, nat_equality,
  list_equality, if◌then◌else◌, any, filter, length, ltb,
}
use keymaker.Text.{Text, onto_first}
use keymaker.Netip.{IpPrefix, Parsing, is_4in6, unmap, masked, prefix_from, bit_len, same_prefix}
use keymaker.Http.Replies.{
  ErrorCode, code_bad_address, code_any_address_block, code_too_many_addresses,
}

abbrev pub max_addresses : ℕ
max_addresses = 64

abbrev pub separates : ℕ → Bool
separates c = c == b',' || c == b';' || c == b' ' || c == 9 || c == 10 || c == 13

unfoldable pub pieces : Text → List Text
pieces [] = [] ∷ []
pieces (c ∷ s) = let rest = pieces s in if separates c then [] ∷ rest else onto_first c rest

-- `strings.FieldsFunc` at those characters.
unfoldable pub fields : Text → List Text
unfolding pieces
fields s = filter (λ t. not (t == [])) (pieces s)

unfoldable pub all_fields : List Text → List Text
unfolding fields
all_fields [] = []
all_fields (line ∷ lines) = fields line ++ all_fields lines

-- The list, or the code and the entry of a refusal.
pub data Reading : Type 0 where
  accepted : List IpPrefix → Reading
  rejected : ErrorCode → Text → Reading

module _ (parsing : Parsing) where
  unfoldable pub read_bare_address : Text → Option IpPrefix
  read_bare_address entry = elim (parsing.parse_addr entry) [
    | none ↦ none
    | some addr ↦
        if not (addr.zone == [])
        then none
        else some (prefix_from (unmap addr) (bit_len (unmap addr)))
  ]

  unfoldable pub read_address : Text → Option IpPrefix
  unfolding read_bare_address
  read_address entry = elim (parsing.parse_prefix entry) [
    | none ↦ read_bare_address entry
    | some p ↦ if is_4in6 p.addr then none else some (masked p)
  ]

  unfoldable pub keep : IpPrefix → List IpPrefix → List IpPrefix
  keep p allowed = if any (same_prefix p) allowed then allowed else allowed ++ (p ∷ [])

  unfoldable pub read_entries : List Text → List IpPrefix → Reading
  unfolding read_address keep
  read_entries [] allowed = accepted allowed
  read_entries (entry ∷ entries) allowed = elim (read_address entry) [
    | none ↦ rejected code_bad_address entry
    | some p ↦
        let rest = read_entries entries (keep p allowed) in
        if p.bits == 0 then rejected code_any_address_block entry else rest
  ]

  unfoldable pub read_addresses : List Text → Reading
  unfolding read_entries all_fields
  read_addresses sent =
      let entries = all_fields sent in
      if ltb max_addresses (length entries)
      then rejected code_too_many_addresses []
      else read_entries entries []
