-- ===== src/Wg/Addresses.antt =====
-- The allocation of addresses in backend/wg/service.go. An address is its bytes, most significant first,
-- in its shortest form (4 bytes for IPv4): `Contains` and `Equal` of Go's net package bring addresses
-- into it. Parsing and printing are parameters. Messages leave out the operands that the source quotes.
pub mod Increment
pub mod Termination
pub mod Allocation
mod Tests
use vpn_manager.Common.{
  ℕ, zero, suc, ◌+◌, ◌-◌, ◌*◌, ◌/◌, ◌%◌, ◌^◌, String, Bool, true, false, not, ◌&&◌, ◌||◌, Option,
  none, some, List, [], ◌∷◌, map, any, length, leb, ◌==◌, ◌=ₛ◌, if◌then◌else◌,
}
use vpn_manager.Text.{◌⧺◌, trim_space}
use vpn_manager.Wg.Firewall.{Result, fine, broken}

abbrev pub Address : Type 0
Address = List ℕ

-- `net.IPNet`: the address of the network and the number of leading one bits of its mask
pub record Network : Type 0 where
  pub ip : Address
  pub prefix : ℕ

-- `net.ParseCIDR` with the address and its network, `net.ParseIP`, and `IP.String`
pub record Net : Type 0 where
  pub parse_cidr : String → Result (Address × Network)
  pub parse_ip : String → Option Address
  pub print : Address → String

abbrev pub same_address : Address → Address → Bool
same_address [] [] = true
same_address [] (y ∷ ys) = false
same_address (x ∷ xs) [] = false
same_address (x ∷ xs) (y ∷ ys) = x == y && same_address xs ys

-- whether the first bits of two addresses of one length agree
abbrev pub same_prefix : ℕ → Address → Address → Bool
same_prefix p [] [] = true
same_prefix p [] (y ∷ ys) = false
same_prefix p (x ∷ xs) [] = false
same_prefix p (x ∷ xs) (y ∷ ys) =
    let rest = same_prefix (p - 8) xs ys in
    if leb 8 p then x == y && rest else x / 2 ^ (8 - p) == y / 2 ^ (8 - p) && length xs == length ys

-- `IPNet.Contains`
abbrev pub contains : Network → Address → Bool
contains net c = same_prefix net.prefix net.ip c

-- the loop of `incIP` from the last byte, with whether it has not met its `break`
abbrev pub inc_bytes : Address → Bool × Address
inc_bytes [] = (true, [])
inc_bytes (x ∷ xs) =
    let rest = inc_bytes xs in
    let next = (x + 1) % 256 in if rest.0 then (next == 0, next ∷ rest.1) else (false, x ∷ rest.1)

-- `incIP`
unfoldable pub inc_ip : Address → Address
inc_ip c = (inc_bytes c).1

-- a test of the map `used`
abbrev pub is_used : List String → String → Bool
is_used used text = any (λ u. u =ₛ text) used

-- The loop of `NextFreeIP` on fuel; `none` is running out of it.
unfoldable pub next_free :
    (Address → String) → Network → List String → ℕ → Address → Option (Result String)
unfolding inc_ip
next_free print net used zero c = none
next_free print net used (suc fuel) c =
    let next = inc_ip c in
    elim (contains net next) [
      | false ↦ some (broken "no free addresses left")
      | true ↦ elim (same_address next net.ip || is_used used (print next)) [
        | true ↦ next_free print net used fuel next
        | false ↦ some (fine (print next))
      ]
    ]

-- Enough fuel for every address of that many bytes.
abbrev pub fuel_for : Address → ℕ
fuel_for ip = 256 ^ length ip

-- `NextFreeIP`
unfoldable pub next_free_ip : Net → String → List String → Option (Result String)
unfolding next_free
next_free_ip net server_cidr taken = elim (net.parse_cidr server_cidr) [
  | broken e ↦ some (broken ("invalid interface address: " ⧺ e))
  | fine (ip, network) ↦
      next_free net.print network (net.print ip ∷ map trim_space taken) (fuel_for network.ip)
        network.ip
]

checked_ip : Address → Result (Address × Network) → Option String
checked_ip assigned (broken e) = some ("invalid interface address: " ⧺ e)
checked_ip assigned (fine (server, network)) =
    if not (contains network assigned)
    then some "assigned IP is outside interface subnet"
    else if same_address assigned server || same_address assigned network.ip
    then some "assigned IP is reserved"
    else none

-- `ValidateIPInCIDR`: the error, if there is one
unfoldable pub validate_ip_in_cidr : Net → String → String → Option String
unfolding checked_ip
validate_ip_in_cidr net assigned server_cidr = elim (net.parse_ip (trim_space assigned)) [
  | none ↦ some "invalid assigned IP"
  | some ip ↦ checked_ip ip (net.parse_cidr (trim_space server_cidr))
]
