-- ===== src/Demo/Padding.antt =====
-- tools/demo/main.go, `pad`: the ordinary keys added to the invented account. A negative number of
-- keys adds none, as zero does.
pub mod Whole
use keymaker.Prelude.{
  ℕ, zero, suc, ◌+◌, ◌-◌, ◌*◌, ◌/◌, ◌%◌, pos, false, List, [], ◌∷◌, ◌++◌, ◌==◌, nat_equality, ltb,
  if◌then◌else◌, length, at,
}
use keymaker.Text.{Text, text}
use keymaker.Strconv.{format_int}
use keymaker.Credential.{expired, validated, AccessRule, Application, Credential, Instant}
use keymaker.Demo.{Store}
use keymaker.Demo.Accounts.{day, host_block}

-- `%x`: the fuel is the number of digits at most.
unfoldable pub hex_digits : ℕ → ℕ → Text → Text
hex_digits zero n rest = rest
hex_digits (suc fuel) n rest =
    let digit = if ltb (n % 16) 10 then b'0' + n % 16 else b'a' + n % 16 - 10 in
    let more = hex_digits fuel (n / 16) (digit ∷ rest) in if ltb n 16 then digit ∷ rest else more

unfoldable pub zeros : ℕ → Text
zeros zero = []
zeros (suc n) = b'0' ∷ zeros n

-- A number at the right of a field of that width, behind zeros.
unfoldable pub padded : ℕ → Text → Text
unfolding zeros
padded width digits = zeros (width - length digits) ++ digits

-- An identifier is an int64: sixteen digits at most.
unfoldable pub service_of : ℕ → Application
unfolding hex_digits padded
service_of group = record {
  id = pos (8000 + group);
  key = text "demo" ++ padded 12 (hex_digits 16 (0xc0000 + group) []);
  name = text "service-" ++ padded 3 (format_int (pos group));
  description = text "an invented service";
  external = false;
  deleted = false;
}

abbrev rule : Text → Text → AccessRule
rule method path = record { method = method; path = path }

abbrev pub pool : List (List AccessRule)
pool =
    (rule (text "GET") (text "/domain/zone/*") ∷ [])
    ∷ (rule (text "GET") (text "/dedicated/server/*")
        ∷ rule (text "POST") (text "/dedicated/server/*/reboot")
        ∷ [])
    ∷ (rule (text "GET") (text "/cloud/project/*") ∷ [])
    ∷ (rule (text "GET") (text "/me/bill") ∷ [])
    ∷ (rule (text "GET") (text "/*") ∷ [])
    ∷ []

abbrev ordinary : Instant → ℕ → Credential
ordinary now i = record {
  id = pos (119000000 + i);
  application = service_of (i / 12);
  status = validated;
  rules = at [] pool (i % length pool);
  allowed_ips = host_block 198 51 100 (1 + i % 250) ∷ [];
  created_at = now - (30 + i % 300) * day;
  expires_at = now + (60 + i % 200) * day;
  last_used_at = now - i % 40 * day;
  issued_by_support = false;
}

-- The i-th key, with what its position asks for.
unfoldable pub added_key : Instant → ℕ → Credential
unfolding service_of
added_key now i =
    let c = ordinary now i in
    if i % 17 == 0
    then record c { status = expired; expires_at = now - day }
    else if i % 13 == 0
    then record c { last_used_at = now - 200 * day }
    else if i % 11 == 0
    then record c { expires_at = 0 }
    else if i % 7 == 0
    then record c { allowed_ips = [] }
    else c

-- The body of the loop, and the rounds from the i-th on.
unfoldable pub add_key : Instant → ℕ → Store → Store
unfolding added_key service_of
add_key now i s = record s {
  credentials = s.credentials ++ (added_key now i ∷ []);
  applications =
      if i % 12 == 0 then s.applications ++ (service_of (i / 12) ∷ []) else s.applications;
}

unfoldable pub add_keys : Instant → ℕ → ℕ → Store → Store
unfolding add_key
add_keys now i zero s = s
add_keys now i (suc n) s = add_keys now (suc i) n (add_key now i s)

unfoldable pub pad : ℕ → Instant → Store → Store
unfolding add_keys
pad n now s = add_keys now 0 n s
