-- ===== src/Demo/Keys.antt =====
-- tools/demo/main.go: lists of keys with distinct identifiers, under the writes of the store.
use keymaker.Prelude.{
  Bool, true, false, not, List, [], ◌∷◌, map, ◌≡◌, refl, sym, ap, arith, ◌==◌, int_equality, ℤ,
  nat_equality, if◌then◌else◌, any, filter, length, Bool-cases, inl, inr, ◌∙◌, ◌≤◌, eq_of,
  nat_equality,
}
use keymaker.Netip.{IpPrefix}
use keymaker.Failure.{Result, ok, err}
use keymaker.Credential.{Credential}
use keymaker.Demo.{has_id, without_key, with_addresses, write_blocks, find}

abbrev pub AreDistinct : List Credential → Type 0
AreDistinct [] = Unit
AreDistinct (c ∷ cs) = (any (has_id c.id) cs ≡ false) × AreDistinct cs

-- `c.AllowedIPs = allowed` for each key of the identifier.
abbrev pub rewritten : ℤ → List IpPrefix → Credential → Credential
rewritten id allowed c = if c.id == id then with_addresses allowed c else c

any-without_key :
    (k id : ℤ) (cs : List Credential)
    → any (has_id k) cs ≡ false
    → any (has_id k) (without_key id cs) ≡ false
any-without_key k id [] h = refl
any-without_key k id (c ∷ cs) h = ground (arith, any-without_key k id cs)

pub without_key-AreDistinct :
    (id : ℤ) (cs : List Credential) → AreDistinct cs → AreDistinct (without_key id cs)
without_key-AreDistinct id [] d = d
without_key-AreDistinct id (c ∷ cs) d =
    ground (arith, any-without_key c.id id cs, without_key-AreDistinct id cs)

any-rewritten :
    (k id : ℤ) (allowed : List IpPrefix) (cs : List Credential)
    → any (has_id k) (map (rewritten id allowed) cs) ≡ any (has_id k) cs
any-rewritten k id allowed [] = refl
any-rewritten k id allowed (c ∷ cs) = ground (arith, any-rewritten k id allowed cs)

pub rewritten-AreDistinct :
    (id : ℤ) (allowed : List IpPrefix) (cs : List Credential)
    → AreDistinct cs
    → AreDistinct (map (rewritten id allowed) cs)
rewritten-AreDistinct id allowed [] d = d
rewritten-AreDistinct id allowed (c ∷ cs) d =
    ground (arith, any-rewritten c.id id allowed cs, rewritten-AreDistinct id allowed cs)

pub rewritten-none :
    (id : ℤ) (allowed : List IpPrefix) (cs : List Credential)
    → any (has_id id) cs ≡ false
    → map (rewritten id allowed) cs ≡ cs
rewritten-none id allowed [] h = refl
rewritten-none id allowed (c ∷ cs) h = ground (arith, rewritten-none id allowed cs)

-- Where identifiers are distinct, the first key of one is the only one.
pub write_blocks-eq-map :
    (id : ℤ) (allowed : List IpPrefix) (cs : List Credential)
    → AreDistinct cs
    → write_blocks id allowed cs ≡ map (rewritten id allowed) cs
unfolding write_blocks
write_blocks-eq-map id allowed [] d = refl
write_blocks-eq-map id allowed (c ∷ cs) d = elim (Bool-cases (c.id == id)) [
  | inl hit ↦
      rw hit (ap (◌∷◌ (with_addresses allowed c)) (sym (rewritten-none id allowed cs (by hit))))
  | inr miss ↦ rw miss (ap (◌∷◌ c) (write_blocks-eq-map id allowed cs d.1))
]
  where
    by : (c.id == id) ≡ true → any (has_id id) cs ≡ false
    by hit = ap (λ k. any (has_id k) cs) (sym (eq_of c.id id hit)) ∙ d.0

length-filter-le : {A : Type 0} (p : A → Bool) (xs : List A) → length (filter p xs) ≤ length xs
length-filter-le p [] = omega arith
length-filter-le p (x ∷ xs) = ground (arith, length-filter-le p xs)

-- A deletion sees by the length whether it took something.
pub length-filter-eq :
    {A : Type 0} (p : A → Bool) (xs : List A)
    → (length (filter (λ x. not (p x)) xs) == length xs) ≡ not (any p xs)
length-filter-eq p [] = refl
length-filter-eq p (x ∷ xs) =
    ground (arith, length-filter-eq p xs, length-filter-le (λ x. not (p x)) xs)

pub find-without_key :
    (k id : ℤ) (cs : List Credential) → (id == k) ≡ false → find k (without_key id cs) ≡ find k cs
unfolding find
find-without_key k id [] h = refl
find-without_key k id (c ∷ cs) h = elim (Bool-cases (c.id == id)) [
  | inl hit ↦ rw hit (ground (arith, find-without_key k id cs h, eq_of c.id id hit))
  | inr miss ↦ rw miss (ground (arith, find-without_key k id cs h))
]

abbrev pub map_ok : (Credential → Credential) → Result Credential → Result Credential
map_ok f (ok c) = ok (f c)
map_ok f (err e) = err e

pub find-rewritten :
    (k id : ℤ) (allowed : List IpPrefix) (cs : List Credential)
    → find k (map (rewritten id allowed) cs) ≡ map_ok (rewritten id allowed) (find k cs)
unfolding find
find-rewritten k id allowed [] = refl
find-rewritten k id allowed (c ∷ cs) = elim (Bool-cases (c.id == k)) [
  | inl hit ↦ ground (arith)
  | inr miss ↦ ground (arith, find-rewritten k id allowed cs)
]
