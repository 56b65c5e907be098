-- ===== src/Netip.antt =====
-- The part of Go's net/netip that the program uses: addresses and address blocks. An address is a
-- number of 32 or 128 bits with, for IPv6, a zone. The grammar of addresses is that package's own:
-- `Parsing` stands for its two parsers.
use keymaker.Prelude.{
  ℕ, ◌/◌, ◌*◌, ◌%◌, ◌^◌, ◌-◌, Bool, true, false, not, ◌&&◌, [], ◌≡◌, arith, Option, ◌==◌,
  nat_equality, list_equality, list_beq_iff, if◌then◌else◌,
}
use keymaker.Text.{Text}

pub record Addr : Type 0 where
  pub is_6 : Bool
  pub value : ℕ
  pub zone : Text

-- `netip.Prefix`
pub record IpPrefix : Type 0 where
  pub addr : Addr
  pub bits : ℕ

-- `netip.ParsePrefix` and `netip.ParseAddr`; an error is `none`.
pub record Parsing : Type 0 where
  pub parse_prefix : Text → Option IpPrefix
  pub parse_addr : Text → Option Addr

-- `Addr.BitLen`
unfoldable pub bit_len : Addr → ℕ
bit_len a = if a.is_6 then 128 else 32

-- `Addr.Is4In6`: the block ::ffff:0:0/96.
unfoldable pub is_4in6 : Addr → Bool
is_4in6 a = a.is_6 && a.value / 2 ^ 32 == 0xffff

-- `Addr.Unmap`
unfoldable pub unmap : Addr → Addr
unfolding is_4in6
unmap a = if is_4in6 a then record { is_6 = false; value = a.value % 2 ^ 32; zone = [] } else a

-- `netip.PrefixFrom`, within the length of the address.
unfoldable pub prefix_from : Addr → ℕ → IpPrefix
prefix_from a bits = record { addr = record a { zone = [] }; bits = bits }

-- `Prefix.Masked`: the bits behind the prefix are cleared.
unfoldable pub masked : IpPrefix → IpPrefix
unfolding bit_len
masked p =
    let host = 2 ^ (bit_len p.addr - p.bits) in
    record {
      addr = record { is_6 = p.addr.is_6; value = p.addr.value / host * host; zone = [] };
      bits = p.bits;
    }

abbrev bool_beq : Bool → Bool → Bool
bool_beq true b = b
bool_beq false b = not b

-- `Prefix.Contains`
unfoldable pub contains : IpPrefix → Addr → Bool
unfolding bit_len
contains p a =
    let host = 2 ^ (bit_len p.addr - p.bits) in
    a.zone == [] && bool_beq p.addr.is_6 a.is_6 && p.addr.value / host == a.value / host

-- The comparison of two prefixes by `==`.
unfoldable pub same_prefix : IpPrefix → IpPrefix → Bool
same_prefix p q =
    bool_beq p.addr.is_6 q.addr.is_6
    && p.addr.value == q.addr.value
    && p.addr.zone == q.addr.zone
    && p.bits == q.bits

abbrev assemble : Bool → ℕ → Text → ℕ → IpPrefix
assemble is_6 value zone bits = record {
  addr = record { is_6 = is_6; value = value; zone = zone };
  bits = bits;
}

assemble_eq :
    {b b' : Bool} {v v' : ℕ} {z z' : Text} {n n' : ℕ}
    → b ≡ b'
    → v ≡ v'
    → z ≡ z'
    → n ≡ n'
    → assemble b v z n ≡ assemble b' v' z' n'
assemble_eq e f g h = cc

bool_beq_sound : (a b : Bool) → bool_beq a b ≡ true → a ≡ b
bool_beq_sound a b h = ground arith

pub same_prefix_sound : (p q : IpPrefix) → same_prefix p q ≡ true → p ≡ q
unfolding same_prefix
same_prefix_sound p q h =
    assemble_eq (bool_beq_sound p.addr.is_6 q.addr.is_6 (ground arith)) (ground arith)
      ((list_beq_iff p.addr.zone q.addr.zone).0 (ground arith)) (ground arith)
