-- ===== src/Demo/Padding/Whole.antt =====
-- tools/demo/main.go: the invented account is whole, whatever the number of keys added to it.
use keymaker.Prelude.{
  ℕ, zero, suc, ◌+◌, ◌<◌, ℤ, pos, negsuc, Bool, true, false, ◌&&◌, List, [], ◌∷◌, ◌++◌, ◌≡◌, refl,
  ap, ◌∙◌, arith, ◌==◌, nat_equality, int_equality, ltb, if◌then◌else◌, any, all, Bool-cases, inl,
  inr, any-append, In, In-append_left, In-append_right, here, ◌/◌, ◌%◌, eq_of, sym, ◌-◌, test_sym,
  subst,
}
use keymaker.Failure.{ok}
use keymaker.Credential.{Application, Credential, Instant}
use keymaker.Demo.{Store, has_id, find}
use keymaker.Demo.Keys.{AreDistinct}
use keymaker.Demo.Accounts.{own_key, new_store, other_keys}
use keymaker.Demo.Padding.{service_of, added_key, add_key, add_keys, pad}

abbrev id_below : ℕ → ℤ → Bool
id_below k (pos n) = ltb n k
id_below k (negsuc n) = false

abbrev are_below : ℕ → List Credential → Bool
are_below k cs = all (λ c. id_below k c.id) cs

id_below-fresh : (k : ℕ) (x : ℤ) → id_below k x ≡ true → (x == pos k) ≡ false
id_below-fresh k (pos n) h = ground arith
id_below-fresh k (negsuc n) h = cc

are_below-fresh :
    (k : ℕ) (cs : List Credential) → are_below k cs ≡ true → any (has_id (pos k)) cs ≡ false
are_below-fresh k [] h = refl
are_below-fresh k (c ∷ cs) h = ground (arith, id_below-fresh k c.id, are_below-fresh k cs)

id_below-suc : (k : ℕ) (x : ℤ) → id_below k x ≡ true → id_below (suc k) x ≡ true
id_below-suc k (pos n) h = ground arith
id_below-suc k (negsuc n) h = cc

are_below-add :
    (k : ℕ) (c : Credential) (cs : List Credential)
    → c.id ≡ pos k
    → are_below k cs ≡ true
    → are_below (suc k) (cs ++ (c ∷ [])) ≡ true
are_below-add k c [] e h = ap (λ i. id_below (suc k) i && true) e ∙ ground arith
are_below-add k c (d ∷ cs) e h = ground (arith, id_below-suc k d.id, are_below-add k c cs e)

AreDistinct-add :
    (c : Credential) (cs : List Credential)
    → any (has_id c.id) cs ≡ false
    → AreDistinct cs
    → AreDistinct (cs ++ (c ∷ []))
AreDistinct-add c [] fresh d = (refl, tt)
AreDistinct-add c (x ∷ cs) fresh d = (
  any-append (has_id x.id) cs (c ∷ []) ∙ ground (arith, test_sym c.id x.id),
  AreDistinct-add c cs (ground arith) d.1,
)

lt_of_other : (i j : ℕ) → j < suc i → (j == i) ≡ false → j < i
lt_of_other i j lt other = ground arith

-- Before the i-th round.
record IsWhole (now : Instant) (i : ℕ) (s : Store) : Type 0 where
  distinct : AreDistinct s.credentials
  below : are_below (119000000 + i) s.credentials ≡ true
  own_found : find s.current.id s.credentials ≡ ok s.current
  keys : (j : ℕ) → j < i → In (added_key now j) s.credentials
  apps : (j : ℕ) → j < i → In (service_of (j / 12)) s.applications

added_key-id : (now : Instant) (i : ℕ) → (added_key now i).id ≡ pos (119000000 + i)
unfolding added_key
added_key-id now i = ground arith

added_key-application :
    (now : Instant) (i : ℕ) → (added_key now i).application ≡ service_of (i / 12)
unfolding added_key
added_key-application now i = ground arith

find-append :
    (k : ℤ) (c : Credential) (cs ds : List Credential) → find k cs ≡ ok c → find k (cs ++ ds) ≡ ok c
unfolding find
find-append k c [] ds h = cc
find-append k c (x ∷ cs) ds h = ground (arith, find-append k c cs ds)

add_application-listed :
    (i : ℕ) (apps : List Application)
    → ((j : ℕ) → j < i → In (service_of (j / 12)) apps)
    → (j : ℕ) → j < suc i
    → In (service_of (j / 12)) (if i % 12 == 0 then apps ++ (service_of (i / 12) ∷ []) else apps)
add_application-listed i apps listed j lt = elim (Bool-cases (i % 12 == 0)) [
  | inl first ↦ rw first (elim (Bool-cases (j == i)) [
    | inl last ↦ In-append_right apps (here (ap (λ k. service_of (k / 12)) (eq_of j i last)))
    | inr before ↦ In-append_left (service_of (i / 12) ∷ []) (listed j (lt_of_other i j lt before))
  ])
  | inr other ↦ rw other (elim (Bool-cases (j == i)) [
    | inl last ↦ subst (λ g. In (service_of g) apps) (ground arith) (listed (i - 1) (ground arith))
    | inr before ↦ listed j (ground arith)
  ])
]

add_key-IsWhole :
    (now : Instant) (i : ℕ) (s : Store) → IsWhole now i s → IsWhole now (suc i) (add_key now i s)
unfolding add_key
add_key-IsWhole now i s w =
    let k : ℕ = 119000000 + i in
    let e = added_key-id now i in
    record {
      distinct =
          AreDistinct-add (added_key now i) s.credentials
            (ap (λ x. any (has_id x) s.credentials) e ∙ are_below-fresh k s.credentials w.below)
            w.distinct;
      below =
          subst (λ m. are_below m (s.credentials ++ (added_key now i ∷ [])) ≡ true) (omega arith)
            (are_below-add k (added_key now i) s.credentials e w.below);
      own_found =
          find-append s.current.id s.current s.credentials (added_key now i ∷ []) w.own_found;
      keys = λ j lt. elim (Bool-cases (j == i)) [
        | inl last ↦ In-append_right s.credentials (here (ap (added_key now) (eq_of j i last)))
        | inr before ↦ In-append_left (added_key now i ∷ []) (w.keys j (lt_of_other i j lt before))
      ];
      apps = add_application-listed i s.applications w.apps;
    }

add_keys-IsWhole :
    (now : Instant) (i n : ℕ) (s : Store)
    → IsWhole now i s
    → IsWhole now (n + i) (add_keys now i n s)
unfolding add_keys
add_keys-IsWhole now i zero s w = subst (λ m. IsWhole now m s) (omega arith) w
add_keys-IsWhole now i (suc n) s w =
    subst (λ m. IsWhole now m (add_keys now (suc i) n (add_key now i s))) (omega arith)
      (add_keys-IsWhole now (suc i) n (add_key now i s) (add_key-IsWhole now i s w))

new_store-IsWhole : (now : Instant) → IsWhole now 0 (new_store now)
unfolding new_store own_key other_keys find
new_store-IsWhole now = record {
  distinct = ground arith;
  below = refl;
  own_found = refl;
  keys = λ j lt. absurd (omega arith);
  apps = λ j lt. absurd (omega arith);
}

-- However many keys are added to the invented account, no two keys of it share an identifier, and the
-- first key of the identifier of the key in use is that key; it holds every key added, and lists the
-- application of each.
pub pad-IsWhole :
    (n : ℕ) (now : Instant)
    → let s = pad n now (new_store now) in
      AreDistinct s.credentials
      × (find s.current.id s.credentials ≡ ok s.current)
      × ((j : ℕ)
          → j < n
          → In (added_key now j) s.credentials × In (added_key now j).application s.applications)
unfolding pad
pad-IsWhole n now =
    let w = add_keys-IsWhole now 0 n (new_store now) (new_store-IsWhole now) in
    (
      w.distinct,
      w.own_found,
      λ j lt. (
        w.keys j (omega arith),
        subst (λ a. In a (add_keys now 0 n (new_store now)).applications)
            (sym (added_key-application now j)) (w.apps j (omega arith)),
      ),
    )
