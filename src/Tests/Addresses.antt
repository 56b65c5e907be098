-- ===== src/Tests/Addresses.antt =====
-- The address handler on the sample account.
use keymaker.Prelude.{
  false, true, none, some, List, [], ◌∷◌, ◌==◌, nat_equality, list_equality, if◌then◌else◌,
}
use keymaker.Strconv.{parse_int}
use keymaker.Text.{Text, text}
use keymaker.Netip.{Addr, IpPrefix, Parsing}
use keymaker.PublicIp.{Resolver, service, address}
use keymaker.Ovh.Makes.{Adds}
use keymaker.Legacy.Provider
use keymaker.Http.Addresses.{addresses}
use keymaker.Http.Addresses.Safety.{AddressCall, Spelt, key_read, addresses-AddressCall}
use keymaker.Tests.World.{account, backwards}

abbrev host : Addr
host = record { is_6 = false; value = 167772161; zone = [] }

abbrev host_block : IpPrefix
host_block = record { addr = host; bits = 32 }

abbrev parsing : Parsing
parsing = record {
  parse_prefix = λ t. none;
  parse_addr = λ t. if t == text "10.0.0.1" then some host else none;
}

abbrev typed : List Text
typed = text "10.0.0.1, 10.0.0.1" ∷ []

abbrev resolver : Resolver
resolver = service (some (200, text "10.0.0.1"))

addresses-AddressCall_example :
    let own = Provider.current account backwards [] in
    Adds
      (AddressCall own.0
        (key_read account backwards (parse_int (text "1")) own.1)
        (address parsing resolver)
        true
        (Spelt parsing (some typed)))
      []
      (addresses account parsing resolver backwards true (text "1") (some typed) []).1
addresses-AddressCall_example =
    addresses-AddressCall account parsing resolver backwards true (text "1") (some typed) []
