-- ===== src/Config/Selection.antt =====
-- internal/config/load.go: which account a configuration selects.
use keymaker.Prelude.{
  Bool, true, false, List, [], ◌∷◌, ◌≡◌, ◌≢◌, inl, inr, refl, ap, ◌∙◌, subst, arith, ◌==◌,
  nat_equality, list_equality, list_beq_iff, any, In, here, there, Bool-cases,
}
use keymaker.Text.{Text, text}
use keymaker.Config.{
  Account, Config, Section, Scan, Parsed, parsed, failed, no_account, known, reserved, account_of,
  accounts_of, value_of, select, choose, build, finish, read_lines, nothing_read, parse,
  find_account, account,
}
use keymaker.Config.Sections.{IsDistinct, read_lines-IsDistinct}

-- The names of the accounts are distinct, and none is reserved or empty.
abbrev pub IsProper : List Account → Type 0
IsProper [] = Unit
IsProper (a ∷ accounts) =
    (any (λ b. b.name == a.name) accounts ≡ false)
    × (a.name ≢ [])
    × (reserved a.name ≡ false)
    × IsProper accounts

absent_accounts :
    (name : Text) (sections : List Section)
    → known name sections ≡ false
    → any (λ b. b.name == name) (accounts_of sections) ≡ false
unfolding known accounts_of
absent_accounts name [] h = refl
absent_accounts name (s ∷ sections) h = elim (Bool-cases (reserved s.name)) [
  | inl r ↦ rw r (absent_accounts name sections (ground arith))
  | inr n ↦ rw n (ground (arith, absent_accounts name sections))
]

accounts_of-IsProper :
    (sections : List Section) → IsDistinct sections → IsProper (accounts_of sections)
unfolding accounts_of
accounts_of-IsProper [] d = tt
accounts_of-IsProper (s ∷ sections) (fresh, filled, d) = elim (Bool-cases (reserved s.name)) [
  | inl r ↦ rw r (accounts_of-IsProper sections d)
  | inr n ↦ rw n (absent_accounts s.name sections fresh, filled, n, accounts_of-IsProper sections d)
]

accounts_of_skip :
    (s : Section) (sections : List Section)
    → reserved s.name ≡ true
    → accounts_of (s ∷ sections) ≡ accounts_of sections
unfolding accounts_of
accounts_of_skip s sections r = rw r refl

accounts_of_keep :
    (s : Section) (sections : List Section)
    → reserved s.name ≡ false
    → accounts_of (s ∷ sections) ≡ account_of s ∷ accounts_of sections
unfolding accounts_of
accounts_of_keep s sections r = rw r refl

-- The account of that name is found.
abbrev Found : Text → List Account → Type 0
Found name accounts =
    (a : Account) × (find_account name accounts ≡ parsed a) × In a accounts × (a.name ≡ name)

Found-here :
    (a : Account) (accounts : List Account) (name : Text)
    → a.name ≡ name
    → Found name (a ∷ accounts)
unfolding find_account
Found-here a accounts name e = (a, rw ((list_beq_iff a.name name).1 e) refl, here refl, e)

Found-there :
    (a : Account) (accounts : List Account) (name : Text)
    → (a.name == name) ≡ false
    → Found name accounts
    → Found name (a ∷ accounts)
unfolding find_account
Found-there a accounts name miss (b, found, m, e) = (b, rw miss found, there m, e)

-- The account of a section is found, where its name is not reserved.
Found-known :
    (name : Text) (sections : List Section)
    → reserved name ≡ false
    → known name sections ≡ true
    → Found name (accounts_of sections)
unfolding known
Found-known name [] r k = cc
Found-known name (s ∷ sections) r k = elim (Bool-cases (s.name == name)) [
  | inl hit ↦
      let e = (list_beq_iff s.name name).0 hit in
      rw (accounts_of_keep s sections (ap reserved e ∙ r))
        (Found-here (account_of s) (accounts_of sections) name e)
  | inr miss ↦
      let later = Found-known name sections r (ground arith) in
      elim (Bool-cases (reserved s.name)) [
        | inl skip ↦ rw (accounts_of_skip s sections skip) later
        | inr kept ↦
            rw (accounts_of_keep s sections kept)
              (Found-there (account_of s) (accounts_of sections) name miss later)
      ]
]

find_account-reserved :
    (name : Text) (accounts : List Account)
    → reserved name ≡ true
    → IsProper accounts
    → find_account name accounts ≡ failed (no_account name)
unfolding find_account
find_account-reserved name [] r p = refl
find_account-reserved name (a ∷ accounts) r (fresh, filled, free, p) =
    elim (Bool-cases (a.name == name)) [
      | inl hit ↦ let e = ap reserved ((list_beq_iff a.name name).0 hit) in absurd (ground arith)
      | inr miss ↦ rw miss (find_account-reserved name accounts r p)
    ]

choose-known :
    (sections : List Section) (accounts : List Account) (c : Config)
    → choose sections accounts ≡ parsed c
    → (accounts ≡ c.accounts) × (known c.selected sections ≡ true)
unfolding choose
choose-known sections [] c h = absurd (ground arith)
choose-known sections (first ∷ others) c h =
    let wanted = select (value_of (text "default") (text "endpoint") sections) first in
    elim (Bool-cases (known wanted sections)) [
      | inl met ↦
          let e : record { selected = wanted; accounts = first ∷ others } ≡ c = ground arith in
          (ap (λ x. x.accounts) e, subst (λ x. known x.selected sections ≡ true) e met)
      | inr unmet ↦ absurd (ground arith)
    ]

finish-built :
    (broken : Bool) (read : Parsed Scan) (c : Config)
    → finish broken read ≡ parsed c
    → (scan : Scan) × (read ≡ parsed scan) × (build scan.sections ≡ parsed c)
unfolding finish
finish-built broken (failed e) c h = absurd (ground arith)
finish-built true (parsed scan) c h = absurd (ground arith)
finish-built false (parsed scan) c h = (scan, refl, h)

-- A configuration that is read has accounts of distinct names, none of them empty or reserved. The
-- account it selects is then found under the name selected, except where that name is one of the
-- reserved ones, `default` and `applications`: the file is accepted, and no account is found.
pub parse-IsProper :
    (lines : List Text) (broken : Bool) (c : Config)
    → parse lines broken ≡ parsed c
    → IsProper c.accounts
      × (reserved c.selected ≡ false
          → (a : Account) × (account c ≡ parsed a) × In a c.accounts × (a.name ≡ c.selected))
      × (reserved c.selected ≡ true → account c ≡ failed (no_account c.selected))
unfolding parse build account
parse-IsProper lines broken c h =
    let (scan, read, built) = finish-built broken (read_lines 1 lines nothing_read) c h in
    let d = read_lines-IsDistinct 1 lines nothing_read scan tt read in
    let (e, k) = choose-known scan.sections (accounts_of scan.sections) c built in
    let p = subst IsProper e (accounts_of-IsProper scan.sections d) in
    (
      p,
      λ free. subst (Found c.selected) e (Found-known c.selected scan.sections free k),
      λ r. find_account-reserved c.selected c.accounts r p,
    )
