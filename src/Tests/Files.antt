-- ===== src/Tests/Files.antt =====
-- The configuration file, the catalogue, the pacing of calls and the checks of a request.
use keymaker.Prelude.{
  ℤ, Option, ℕ, ◌*◌, ◌≤◌, min, pos, true, false, none, some, List, [], ◌∷◌, ◌≡◌, refl, arith,
  nat_equality, list_equality, In,
}
use keymaker.Text.{Text, text, has_prefix, has_suffix, trim_space}
use keymaker.Strconv.{parse_int}
use keymaker.Credential.{AccessRule, match_path}
use keymaker.Config.{
  Config, Account, parsed, failed, no_account, reserved, parse, read_lines, read_line, read_header,
  read_pair, finish, build, choose, account, value_of, known, select, assign, lookup,
}
use keymaker.Config.Selection.{IsProper, parse-IsProper}
use keymaker.Catalog.{rule_path}
use keymaker.Catalog.Instances.{ends, literal, parameter, match_path-rule_path}
use keymaker.Ovh.Pacing.{second, delay, nonnegative}
use keymaker.Ovh.Pacing.Delay.{delay-seconds}

abbrev file : List Text
file = text "; a comment" ∷ text "[ovh-eu]" ∷ text " application_key = ak=1 " ∷ []

abbrev config : Config
config = record {
  selected = text "ovh-eu";
  accounts =
      record {
        name = text "ovh-eu";
        endpoint = text "ovh-eu";
        management = record {
          application_key = text "ak=1";
          application_secret = [];
          consumer_key = [];
        };
      }
      ∷ [];
}

file-parsed : parse file false ≡ parsed config
unfolding parse read_lines read_line read_header read_pair finish build choose select value_of known
    assign lookup has_prefix has_suffix trim_space
file-parsed = refl

parse-IsProper_example :
    IsProper config.accounts
    × (reserved config.selected ≡ false
        → (a : Account) × (account config ≡ parsed a)
          × In a config.accounts
          × (a.name ≡ config.selected))
    × (reserved config.selected ≡ true → account config ≡ failed (no_account config.selected))
parse-IsProper_example = parse-IsProper file false config file-parsed

match_path-rule_path_example : match_path (rule_path (text "/{id}")) (text "/42") ≡ true
match_path-rule_path_example = match_path-rule_path (text "/{id}") (text "/42") (
    literal (text "42") refl
      (parameter (text "id") (text "42") [] [] refl refl refl refl (ends refl)))

abbrev no_date : Text → Option ℤ
no_date header = none

delay-seconds_example :
    (delay no_date (pos second) (10 * second) (text " 3 ") ≤ 10 * second)
    × ((n : ℕ)
        → parse_int (trim_space (text " 3 ")) ≡ some (pos n)
        → delay no_date (pos second) (10 * second) (text " 3 ") ≡ min (n * second) (10 * second))
    × (parse_int (trim_space (text " 3 ")) ≡ none
        → no_date (trim_space (text " 3 ")) ≡ none
        → delay no_date (pos second) (10 * second) (text " 3 ")
          ≡ min (nonnegative (pos second)) (10 * second))
delay-seconds_example = delay-seconds no_date (pos second) 10 (text " 3 ") (omega arith)

abbrev sent : List AccessRule
sent = record { method = text "get "; path = text "/me" } ∷ []
