-- ===== src/PublicIp.antt =====
-- internal/publicip/publicip.go: the address the process is seen from. The service that answers is
-- not part of the repository: a request asks it at most once, and its answer is an argument. The
-- limit on its body counts bytes, which are characters here, as an address is ASCII.
use keymaker.Prelude.{
  ℕ, Bool, true, false, not, Option, none, some, ◌==◌, nat_equality, if◌then◌else◌,
}
use keymaker.Text.{Text, take, trim_space}
use keymaker.Failure.{Failure, Result, ok, err, sentinel, lookup_disabled}
use keymaker.Netip.{Addr, Parsing}

-- The status and the body of the answer, or that there was none.
abbrev pub Answer : Type 0
Answer = Option (ℕ × Text)

-- The two implementations of the interface `Resolver`.
pub data Resolver : Type 0 where
  disabled : Resolver
  service : Answer → Resolver

unfoldable pub enabled : Resolver → Bool
enabled disabled = false
enabled (service answer) = true

unfoldable pub service_address : Parsing → Answer → Result Addr
service_address parsing none = err (Failure.unread 0)
service_address parsing (some (status, body)) =
    if not (status == 200)
    then err (Failure.unread 1)
    else elim (parsing.parse_addr (trim_space (take 64 body))) [
      | none ↦ err (Failure.unread 2)
      | some address ↦ ok address
    ]

-- `Resolver.Address`
unfoldable pub address : Parsing → Resolver → Result Addr
unfolding service_address
address parsing disabled = err (sentinel lookup_disabled)
address parsing (service answer) = service_address parsing answer
