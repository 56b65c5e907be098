-- ===== src/Config.antt =====
-- internal/config: the configuration file, read from the lines that bufio.Scanner gives. The map of
-- sections and the order they were met in are one list, as the code keeps the two in step.
pub mod Sections
pub mod Selection
use keymaker.Prelude.{
  ℕ, suc, ◌-◌, Bool, true, false, not, ◌&&◌, ◌||◌, Option, none, some, List, [], ◌∷◌, ◌++◌, map,
  ◌==◌, nat_equality, list_equality, if◌then◌else◌, any, filter, length,
}
use keymaker.Text.{Text, text, take, drop, has_prefix, has_suffix, trim_space, cut}

pub record LegacyCredentials : Type 0 where
  pub application_key : Text
  pub application_secret : Text
  pub consumer_key : Text

pub record Account : Type 0 where
  pub name : Text
  pub endpoint : Text
  pub management : LegacyCredentials

pub record Config : Type 0 where
  pub selected : Text
  pub accounts : List Account

-- The number of the line, where the error names one.
pub data ConfigError : Type 0 where
  unterminated_header empty_section_name expected_pair outside_section : ℕ → ConfigError
  unreadable no_endpoint_section : ConfigError
  no_matching_section no_account : Text → ConfigError

pub data Parsed {ℓ} (A : Type ℓ) : Type ℓ where
  parsed : A → Parsed A
  failed : ConfigError → Parsed A

abbrev pub Pairs : Type 0
Pairs = List (Text × Text)

pub record Section : Type 0 where
  pub name : Text
  pub pairs : Pairs

-- The section that keys go to, the empty name for none, and the sections met.
pub record Scan : Type 0 where
  pub current : Text
  pub sections : List Section

unfoldable pub lookup : Text → Pairs → Text
lookup key [] = []
lookup key ((k, value) ∷ pairs) = let rest = lookup key pairs in if key == k then value else rest

unfoldable pub assign : Text → Text → Pairs → Pairs
assign key value [] = (key, value) ∷ []
assign key value ((k, v) ∷ pairs) =
    let rest = assign key value pairs in if key == k then (k, value) ∷ pairs else (k, v) ∷ rest

unfoldable pub known : Text → List Section → Bool
known name sections = any (λ s. s.name == name) sections

unfoldable pub open_section : Text → List Section → List Section
unfolding known
open_section name sections =
    if known name sections then sections else sections ++ (record { name = name; pairs = [] } ∷ [])

abbrev pub assign_in : Text → Text → Text → Section → Section
assign_in current key value s = record {
  name = s.name;
  pairs = if s.name == current then assign key value s.pairs else s.pairs;
}

unfoldable pub read_header : ℕ → Text → Scan → Parsed Scan
unfolding open_section
read_header line header scan =
    if not (has_suffix header (text "]"))
    then failed (unterminated_header line)
    else let name = trim_space (take (length header - 2) (drop 1 header)) in
      if name == []
      then failed (empty_section_name line)
      else parsed (record { current = name; sections = open_section name scan.sections })

unfoldable pub read_cut : ℕ → Scan → Option (Text × Text) → Parsed Scan
read_cut line scan none = failed (expected_pair line)
read_cut line scan (some (key, value)) =
    if scan.current == []
    then failed (outside_section line)
    else parsed (record {
      current = scan.current;
      sections = map (assign_in scan.current (trim_space key) (trim_space value)) scan.sections;
    })

unfoldable pub read_pair : ℕ → Text → Scan → Parsed Scan
unfolding cut read_cut
read_pair line entry scan = read_cut line scan (cut b'=' entry)

unfoldable pub read_line : ℕ → Text → Scan → Parsed Scan
unfolding read_header read_pair
read_line line raw scan =
    let entry = trim_space raw in
    if entry == [] || has_prefix entry (text ";") || has_prefix entry (text "#")
    then parsed scan
    else if has_prefix entry (text "[")
    then read_header line entry scan
    else read_pair line entry scan

unfoldable pub read_lines : ℕ → List Text → Scan → Parsed Scan
unfolding read_line
read_lines line [] scan = parsed scan
read_lines line (raw ∷ more) scan = elim (read_line line raw scan) [
  | failed e ↦ failed e
  | parsed next ↦ read_lines (suc line) more next
]

abbrev pub reserved : Text → Bool
reserved name = name == text "default" || name == text "applications"

abbrev pub account_of : Section → Account
account_of s = record {
  name = s.name;
  endpoint = s.name;
  management = record {
    application_key = lookup (text "application_key") s.pairs;
    application_secret = lookup (text "application_secret") s.pairs;
    consumer_key = lookup (text "consumer_key") s.pairs;
  };
}

-- The value of a key of a section, empty where either is missing.
unfoldable pub value_of : Text → Text → List Section → Text
unfolding lookup
value_of name key [] = []
value_of name key (s ∷ sections) =
    let rest = value_of name key sections in if s.name == name then lookup key s.pairs else rest

unfoldable pub accounts_of : List Section → List Account
accounts_of sections = map account_of (filter (λ s. not (reserved s.name)) sections)

unfoldable pub select : Text → Account → Text
select wanted first = if wanted == [] then first.name else wanted

unfoldable pub choose : List Section → List Account → Parsed Config
unfolding select known
choose sections [] = failed no_endpoint_section
choose sections (first ∷ others) =
    let selected = select (value_of (text "default") (text "endpoint") sections) first in
    if not (known selected sections)
    then failed (no_matching_section selected)
    else parsed (record { selected = selected; accounts = first ∷ others })

unfoldable pub build : List Section → Parsed Config
unfolding choose accounts_of
build sections = choose sections (accounts_of sections)

abbrev pub nothing_read : Scan
nothing_read = record { current = []; sections = [] }

-- Whether the scanner stopped on an error, and what was read until then.
unfoldable pub finish : Bool → Parsed Scan → Parsed Config
unfolding build
finish broken (failed e) = failed e
finish broken (parsed scan) = if broken then failed unreadable else build scan.sections

unfoldable pub parse : List Text → Bool → Parsed Config
unfolding read_lines finish
parse lines broken = finish broken (read_lines 1 lines nothing_read)

unfoldable pub find_account : Text → List Account → Parsed Account
find_account name [] = failed (no_account name)
find_account name (a ∷ accounts) =
    let rest = find_account name accounts in if a.name == name then parsed a else rest

-- `Config.Account`
unfoldable pub account : Config → Parsed Account
unfolding find_account
account c = find_account c.selected c.accounts

unfoldable pub complete : LegacyCredentials → Bool
complete l =
    not (l.application_key == []) && not (l.application_secret == []) && not (l.consumer_key == [])
