-- ===== src/Http/Addresses/Preview.antt =====
-- internal/httpapi/addresses.go: the preview of a list against its write.
use keymaker.Prelude.{◌≡◌, ◌⊎◌, int_equality}
use keymaker.Text.{Text}
use keymaker.Credential.{Credential}
use keymaker.Failure.{Failure}
use keymaker.Legacy.Provider
use keymaker.Http.Replies.{Reply, answered, fail_addresses}
use keymaker.Http.Addresses.{AddressesResponse}

-- What the write answers after a preview: the same, but for a write that the API refuses.
abbrev pub Follows : Reply AddressesResponse → Reply AddressesResponse → Type 0
Follows (answered r) later = (later ≡ answered r) ⊎ ((e : Failure) × (later ≡ fail_addresses e))
Follows earlier later = later ≡ earlier
