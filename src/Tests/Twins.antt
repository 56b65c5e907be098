-- ===== src/Tests/Twins.antt =====
-- Credentials that are twins.
use keymaker.Prelude.{
  false, ℕ, pos, Bool, true, [], ◌∷◌, map, ◌≡◌, refl, arith, any, nat_equality, list_equality,
}
use keymaker.Text.{Text, text, split, equal_fold, join, less, to_upper}
use keymaker.Strconv.{format_int}
use keymaker.Netip.{IpPrefix}
use keymaker.Credential.{validated, Credential, permits, permits_rules, match_path, match_segments}
use keymaker.Audit.{examines}
use keymaker.Audit.Twins.{fingerprint, twins, see_all, marked, see, comparable, rule_line}
use keymaker.Audit.Twins.Classes.{has_twin, twins-eq-has_twin}
use keymaker.Audit.Twins.Lines.{all-format_int, lacks_of_apart}
use keymaker.Audit.Twins.Interchangeable.{PrintsWords, fingerprint-Interchangeable}
use keymaker.Ovh.Paths.{management_rules}
use keymaker.Tests.World.{key, own}

abbrev same_letter : ℕ → ℕ
same_letter c = c

-- A printing of blocks: the length behind a slash.
abbrev print_length : IpPrefix → Text
print_length p = b'/' ∷ format_int (pos p.bits)

print_length-is_word : PrintsWords print_length
print_length-is_word p =
    let l = lacks_of_apart (format_int (pos p.bits)) (all-format_int (pos p.bits)) in ground arith

abbrev first_key : Credential
first_key = key 5 10 validated (
    record { method = text "get"; path = text "/me" }
    ∷ record { method = text "PUT"; path = text "/me/a" }
    ∷ [])

abbrev second_key : Credential
second_key = key 6 10 validated (
    record { method = text "PUT"; path = text "/me/a" }
    ∷ record { method = text "GET"; path = text "/me" }
    ∷ [])

twins_found : twins same_letter print_length (first_key ∷ own ∷ second_key ∷ []) (pos 6) ≡ true
unfolding twins see_all marked see comparable examines fingerprint rule_line join less to_upper
    format_int management_rules
twins_found = refl

twins-eq-has_twin_example :
    twins same_letter print_length (first_key ∷ own ∷ second_key ∷ []) (pos 6)
    ≡ has_twin same_letter print_length (first_key ∷ own ∷ second_key ∷ []) (pos 6)
twins-eq-has_twin_example =
    twins-eq-has_twin same_letter print_length (first_key ∷ own ∷ second_key ∷ []) (pos 6)

same_fingerprint :
    fingerprint same_letter print_length first_key ≡ fingerprint same_letter print_length second_key
unfolding fingerprint rule_line join less to_upper format_int management_rules
same_fingerprint = refl

fingerprint-Interchangeable_example :
    (first_key.application.id ≡ second_key.application.id)
    × ((from : Text → Bool)
        → any from (map print_length first_key.allowed_ips)
          ≡ any from (map print_length second_key.allowed_ips))
    × ((method path : Text) → permits first_key method path ≡ permits second_key method path)
fingerprint-Interchangeable_example =
    fingerprint-Interchangeable same_letter print_length print_length-is_word first_key second_key
      refl refl (omega arith) (omega arith) same_fingerprint

-- The dotless i: two credentials of one fingerprint, one of which may not make the call.
abbrev spelled : Text → Credential
spelled method = key 7 10 validated (record { method = method; path = text "/me" } ∷ [])

dotless_twins :
    fingerprint same_letter print_length (spelled (text "OPTIONS"))
    ≡ fingerprint same_letter print_length (spelled (text "OPTıONS"))
unfolding fingerprint rule_line join less to_upper format_int
dotless_twins = refl

dotless_refused :
    (permits (spelled (text "OPTIONS")) (text "OPTIONS") (text "/me") ≡ true)
    × (permits (spelled (text "OPTıONS")) (text "OPTIONS") (text "/me") ≡ false)
unfolding permits permits_rules match_path match_segments split equal_fold
dotless_refused = (refl, refl)
