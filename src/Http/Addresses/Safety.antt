-- ===== src/Http/Addresses/Safety.antt =====
-- internal/httpapi/addresses.go: which calls the change of a list makes, and that it does not lock
-- the tool out.
use keymaker.Prelude.{
  ℤ, Bool, true, false, not, Option, none, some, List, [], ◌∷◌, ◌≡◌, ◌≢◌, refl, arith, ◌==◌,
  int_equality, int_beq_iff, any, if◌then◌else◌, Bool-cases, inl, inr,
}
use keymaker.Text.{Text}
use keymaker.Strconv.{parse_int}
use keymaker.Netip.{Addr, IpPrefix, Parsing, contains}
use keymaker.PublicIp.{Resolver, address}
use keymaker.Credential.{Credential, is_validated}
use keymaker.Failure.{Result, ok, err, unread}
use keymaker.Ovh.Client.{Call, Api, History, ◌>>=◌}
use keymaker.Ovh.Makes.{
  Adds, Adds-refl, Adds-trans, Makes, Makes-pure, Makes-ask, Makes-bind, Makes-if, Makes-weaken,
  IsRead,
}
use keymaker.Legacy.FanOut.{Scheduler}
use keymaker.Legacy.Provider
use keymaker.Legacy.Reads.{current-Makes, get-Makes}
use keymaker.Http.Replies.{Reply, answered, no_content, refused}
use keymaker.Http.Entries.{Reading, accepted, rejected, read_addresses}
use keymaker.Http.Addresses.{
  AddressesResponse, check_own, check, write, addresses_against, addresses_known, addresses_sent,
  addresses_identified, addresses,
}

-- A list leaves the process in: it names no block, or one with the address it is seen from.
abbrev pub LeavesIn : Result Addr → List IpPrefix → Type 0
LeavesIn seen allowed =
    allowed ≢ [] → (addr : Addr) × (seen ≡ ok addr) × (any (λ p. contains p addr) allowed ≡ true)

-- The key asked for, as it was read: the key in use itself, or what the API answered for it once
-- the key in use was identified.
abbrev pub key_read : Api → Scheduler → Option ℤ → History → Credential → Result Credential
key_read api s none h current = err (unread 0)
key_read api s (some id) h current =
    if id == current.id then ok current else (Provider.get api s id h).0

-- A write that may be made: of the key asked for, which was read and is usable, and of the key in
-- use only with a list that leaves the process in.
abbrev pub IsSafeWrite :
    Result Credential
    → (Credential → Result Credential)
    → Result Addr
    → Bool
    → List IpPrefix
    → ℤ
    → Type 0
IsSafeWrite own read seen apply allowed id =
    (apply ≡ true)
    × (current target : Credential) × (own ≡ ok current)
    × (read current ≡ ok target)
    × (target.id ≡ id)
    × (is_validated target.status ≡ true)
    × (target.application.deleted ≡ false)
    × (id ≡ current.id → LeavesIn seen allowed)

-- A call the handler may make: a read, or such a write of the list that the body spells.
abbrev pub AddressCall :
    Result Credential
    → (Credential → Result Credential)
    → Result Addr
    → Bool
    → (List IpPrefix → Type 0)
    → Call
    → Type 0
AddressCall own read seen apply spelt (Call.set_allowed_ips id allowed) =
    spelt allowed × IsSafeWrite own read seen apply allowed id
AddressCall own read seen apply spelt (Call.delete_credential id) = ⊥
AddressCall own read seen apply spelt Call.logout = ⊥
AddressCall own read seen apply spelt (Call.delete_application id) = ⊥
AddressCall own read seen apply spelt _ = Unit

AddressCall-read :
    (own : Result Credential) (read : Credential → Result Credential) (seen : Result Addr)
    (apply : Bool) (spelt : List IpPrefix → Type 0) (c : Call)
    → IsRead c
    → AddressCall own read seen apply spelt c
AddressCall-read own read seen apply spelt (Call.delete_credential id) r = r
AddressCall-read own read seen apply spelt (Call.set_allowed_ips id allowed) r = absurd r
AddressCall-read own read seen apply spelt Call.logout r = r
AddressCall-read own read seen apply spelt (Call.delete_application id) r = r
AddressCall-read own read seen apply spelt _ r = tt

check_own-LeavesIn :
    (seen : Result Addr) (allowed : List IpPrefix) (r : AddressesResponse)
    → check_own seen allowed ≡ answered r
    → LeavesIn seen allowed
unfolding check_own
check_own-LeavesIn (err e) allowed r h ne = absurd (ground arith)
check_own-LeavesIn (ok addr) allowed r h ne = (addr, refl, ground arith)

check-LeavesIn :
    (seen : Result Addr) (current target : Credential) (allowed : List IpPrefix)
    (r : AddressesResponse)
    → check seen current target allowed ≡ answered r
    → target.id ≡ current.id
    → LeavesIn seen allowed
unfolding check
check-LeavesIn seen current target [] r h e = λ ne. absurd (ne refl)
check-LeavesIn seen current target (p ∷ ps) r h e =
    let same : (target.id == current.id) ≡ true = (int_beq_iff target.id current.id).1 e in
    check_own-LeavesIn seen (p ∷ ps) r (ground arith)

check-usable :
    (seen : Result Addr) (current target : Credential) (allowed : List IpPrefix)
    (r : AddressesResponse)
    → check seen current target allowed ≡ answered r
    → (is_validated target.status ≡ true) × (target.application.deleted ≡ false)
unfolding check
check-usable seen current target allowed r h = ground arith

module _ (api : Api) (own : Result Credential) (read : Credential → Result Credential)
    (seen : Result Addr) (apply : Bool) (spelt : List IpPrefix → Type 0) (allowed : List IpPrefix)
    (spells : spelt allowed) where
  write-Makes :
      (current target : Credential) (reply : Reply AddressesResponse)
      → own ≡ ok current
      → read current ≡ ok target
      → check seen current target allowed ≡ reply
      → Makes (AddressCall own read seen apply spelt) (write api apply allowed target reply)
  unfolding write Provider.set_addresses
  write-Makes current target (answered r) known found passed =
      Makes-if (not apply) _ _ (λ preview. Makes-pure _)
        (λ applied.
          Makes-bind _ _
            (Makes-bind _ _
              (Makes-ask _ _ (
                spells,
                (
                  ground arith,
                  current,
                  target,
                  known,
                  found,
                  refl,
                  (check-usable seen current target allowed r passed).0,
                  (check-usable seen current target allowed r passed).1,
                  check-LeavesIn seen current target allowed r passed,
                ),
              ))
              (λ a. Makes-pure _))
            (λ e. Makes-pure _))
  write-Makes current target no_content known found passed = Makes-pure _
  write-Makes current target (refused status code) known found passed = Makes-pure _

  addresses_against-Makes :
      (current : Credential) (target : Result Credential)
      → own ≡ ok current
      → read current ≡ target
      → Makes
          (AddressCall own read seen apply spelt)
          (addresses_against api apply allowed seen current target)
  unfolding addresses_against
  addresses_against-Makes current (err e) known found = Makes-pure _
  addresses_against-Makes current (ok target) known found =
      write-Makes current target _ known found refl

module _ (api : Api) (own : Result Credential) (seen : Result Addr) (apply : Bool)
    (spelt : List IpPrefix → Type 0) (allowed : List IpPrefix) (spells : spelt allowed)
    (s : Scheduler) (id : ℤ) (h : History) where
  abbrev Kind : Call → Type 0
  Kind = AddressCall own (key_read api s (some id) h) seen apply spelt

  addresses_known-Adds :
      (found : Result Credential)
      → own ≡ found
      → Adds Kind h (addresses_known api apply allowed seen s id found h).1
  unfolding addresses_known ◌>>=◌
  addresses_known-Adds (err e) known = Adds-refl Kind h
  addresses_known-Adds (ok current) known =
      let read = key_read api s (some id) h in
      elim (Bool-cases (id == current.id)) [
        | inl same ↦
            let k =
              addresses_against-Makes api own read seen apply spelt allowed spells current
                (ok current) known (rw same refl) in
            rw same (k.from h)
        | inr other ↦
            let target = Provider.get api s id h in
            let k =
              addresses_against-Makes api own read seen apply spelt allowed spells current target.0
                known (rw other refl) in
            rw other (
              Adds-trans Kind
                ((Makes-weaken _ (AddressCall-read own read seen apply spelt)
                    (get-Makes api s id)).from
                  h)
                (k.from target.1))
      ]

-- The list that the body spells.
abbrev pub Spelt : Parsing → Option (List Text) → List IpPrefix → Type 0
Spelt parsing none allowed = ⊥
Spelt parsing (some sent) allowed = read_addresses parsing sent ≡ accepted allowed

module _ (api : Api) (parsing : Parsing) (resolver : Resolver) (s : Scheduler) (apply : Bool) where
  addresses_sent-Adds :
      (id : ℤ) (reading : Reading) (spelt : List IpPrefix → Type 0) (h : History)
      → ((allowed : List IpPrefix) → reading ≡ accepted allowed → spelt allowed)
      → let own = Provider.current api s h in
        Adds
          (AddressCall own.0
            (key_read api s (some id) own.1)
            (address parsing resolver)
            apply
            spelt)
          h
          (addresses_sent api parsing resolver s apply id reading h).1
  unfolding addresses_sent ◌>>=◌
  addresses_sent-Adds id (rejected code entry) spelt h spells = Adds-refl _ h
  addresses_sent-Adds id (accepted allowed) spelt h spells =
      let own = Provider.current api s h in
      let seen = address parsing resolver in
      let read = key_read api s (some id) own.1 in
      Adds-trans (AddressCall own.0 read seen apply spelt)
        ((Makes-weaken _ (AddressCall-read own.0 read seen apply spelt) (current-Makes api s)).from
          h)
        (addresses_known-Adds api own.0 seen apply spelt allowed (spells allowed refl) s id own.1
          own.0 refl)

  addresses_identified-Adds :
      (id : Option ℤ) (body : Option (List Text)) (h : History)
      → let own = Provider.current api s h in
        Adds
          (AddressCall own.0
            (key_read api s id own.1)
            (address parsing resolver)
            apply
            (Spelt parsing body))
          h
          (addresses_identified api parsing resolver s apply id body h).1
  unfolding addresses_identified ◌>>=◌
  addresses_identified-Adds none body h = Adds-refl _ h
  addresses_identified-Adds (some id) none h = Adds-refl _ h
  addresses_identified-Adds (some id) (some sent) h =
      addresses_sent-Adds id (read_addresses parsing sent) _ h (λ allowed e. e)

  -- Besides reads, the handler makes no call but the write of the list that the body spells, only
  -- where it was asked to apply it, and to the key asked for, as it was read then, which is usable:
  -- the key in use as it was identified, or what the API answered for another one. It writes to the
  -- key in use only a list that names no block or one with the address the process was seen from, and
  -- nothing at all where the key in use cannot be identified.
  pub addresses-AddressCall :
      (path_id : Text) (body : Option (List Text)) (h : History)
      → let own = Provider.current api s h in
        Adds
          (AddressCall own.0
            (key_read api s (parse_int path_id) own.1)
            (address parsing resolver)
            apply
            (Spelt parsing body))
          h
          (addresses api parsing resolver s apply path_id body h).1
  unfolding addresses
  addresses-AddressCall path_id body h = addresses_identified-Adds (parse_int path_id) body h
